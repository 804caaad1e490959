-- ===== src/RingQueue/Refine.antt =====
-- A valid circular queue behaves as the bounded first-in first-out list of the values it holds.
use nf_server.Prelude.{
  ℕ, zero, suc, ◌-◌, ◌<◌, ◌≡◌, ap, ◌∙◌, List, [], ◌∷◌, arith, leb, if◌then◌else◌, length-set, set,
  get_or, get_elem?-eq-get_or,
}
use native.Mathlib.Numerals.{add-one}
use nf_server.RingQueue.{Queue, push_q, pop_q}
use nf_server.RingQueue.Inv.{IsValid, slot, slot-lt, slot-slot, step_index-slot, step_index-mod}
use nf_server.RingQueue.Items.{items, length-items, items-set, items-cons}
use nf_server.RingQueue.Fifo

-- What the queue holds, with its block `xs`.
abbrev pub contents : List ℕ → Queue → List ℕ
contents xs q = items q.cap xs q.front q.size

-- The block after `push_q`.
abbrev pub pushed_block : List ℕ → Queue → ℕ → List ℕ
pushed_block xs q v = if leb q.cap q.size then xs else set xs q.rear v

pub push_q-IsValid :
    (xs : List ℕ) {q : Queue} (v : ℕ) → IsValid xs q → IsValid (pushed_block xs q v) (push_q q v).1
unfolding push_q
push_q-IsValid xs {q} v i =
    ground (arith, length-set xs q.rear v, step_index-slot q.cap q.front q.size i.room)

pub push_q_refines :
    (xs : List ℕ) {q : Queue} (v : ℕ)
    → IsValid xs q
    → ((push_q q v).0, contents (pushed_block xs q v) (push_q q v).1)
      ≡ Fifo.push q.cap (contents xs q) v
unfolding push_q Fifo.push
push_q_refines xs {q} v i = ground (
  arith,
  length-items q.cap xs q.front q.size,
  items-set q.cap xs q.front q.size v i.room i.block,
  add-one q.size,
)

items-nil : (n : ℕ) (xs : List ℕ) (front m : ℕ) → m ≡ 0 → items n xs front m ≡ []
unfolding items
items-nil n xs front m e = rw e

items-pos :
    (n : ℕ) (xs : List ℕ) (front m : ℕ)
    → 0 < m
    → items n xs front m ≡ get_or xs (slot n front 0) 0 ∷ items n xs (slot n front 0) (m - 1)
items-pos n xs front zero h = elim h [ ]
items-pos n xs front (suc m) h =
    items-cons n xs front m
    ∙ ap (λ (k : ℕ). get_or xs (slot n front 0) 0 ∷ items n xs (slot n front 0) k) (omega arith)

pub pop_q-IsValid : (xs : List ℕ) {q : Queue} → IsValid xs q → IsValid xs (pop_q q).2
unfolding pop_q
pop_q-IsValid xs {q} i =
    ground (arith, step_index-mod q.cap q.front i.front_in, slot-slot q.cap q.front (q.size - 1))

pub pop_q_refines :
    (xs : List ℕ) {q : Queue}
    → IsValid xs q
    → ((pop_q q).0, (pop_q q).1, contents xs (pop_q q).2) ≡ Fifo.pop (contents xs q)
unfolding pop_q Fifo.pop
pop_q_refines xs {q} i = ground (
  arith,
  items-pos q.cap xs q.front q.size,
  items-nil q.cap xs q.front q.size,
  step_index-mod q.cap q.front i.front_in,
  get_elem?-eq-get_or xs (slot q.cap q.front 0) 0,
  slot-lt q.cap q.front 0 i.room,
)
