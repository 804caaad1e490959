-- ===== src/RingQueue/Inv.antt =====
-- The representation invariant of `queue_t`: which slots hold the queue, and that every operation
-- of commonn/queue.cpp keeps it.
use nf_server.Prelude.{
  ℕ, ◌+◌, ◌%◌, ◌≤◌, ◌<◌, ◌≡◌, List, arith, sym, ap, ◌∙◌, inl, inr, length, leb, tests, Bool-cases,
}
use native.Mathlib.Nat.{mod_self, mod-eq_of_lt, mod-add-mod}
use nf_server.RingQueue.{live, Queue, step_index}

-- The slot of the `i`-th oldest value.
abbrev pub slot : ℕ → ℕ → ℕ → ℕ
slot cap front i = (front + 1 + i) % cap

-- The queue owns the block `xs` of `cap` slots, and `rear` is the slot behind its newest value.
pub record IsValid (xs : List ℕ) (q : Queue) : Type 0 where
  pub owned : q.array ≡ live xs
  pub block : length xs ≡ q.cap
  pub room : 2 ≤ q.cap
  pub front_in : q.front < q.cap
  pub size_in : q.size ≤ q.cap
  pub rear_at : q.rear ≡ slot q.cap q.front q.size

pub step_index-mod : (n i : ℕ) → i < n → step_index n i ≡ (i + 1) % n
step_index-mod n i h = elim (Bool-cases (leb n (i + 1))) [
  | inl last ↦ let e : i + 1 ≡ n = omega tests in rw (last, e) (sym (mod_self n))
  | inr more ↦ rw more (sym (mod-eq_of_lt (ground arith)))
]

pub slot-lt : (n front i : ℕ) → 2 ≤ n → slot n front i < n
slot-lt n front i h = omega arith

pub slot-slot : (n front i : ℕ) → slot n (slot n front 0) i ≡ slot n front (i + 1)
slot-slot n front i =
    ap (λ (k : ℕ). k % n) (omega arith)
    ∙ mod-add-mod (front + 1 + 0) n (1 + i)
    ∙ ap (λ (k : ℕ). k % n) (omega arith)

pub step_index-slot : (n front i : ℕ) → 2 ≤ n → step_index n (slot n front i) ≡ slot n front (i + 1)
step_index-slot n front i h =
    step_index-mod n (slot n front i) (slot-lt n front i h)
    ∙ mod-add-mod (front + 1 + i) n 1
    ∙ ap (λ (k : ℕ). k % n) (omega arith)
