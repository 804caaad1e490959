-- ===== src/RingQueue/Runs.antt =====
-- The whole life of a circular queue: what `create_q` makes, what any sequence of calls returns, and
-- what is left after `destroy_q`.
use nf_server.Prelude.{
  ℕ, ◌+◌, ◌≤◌, ◌≡◌, refl, Option, none, List, [], ◌∷◌, arith, ltb, sym, if◌then◌else◌, length,
}
use nf_server.Prelude.Int.{ℤ, pos, success, failure}
use native.Mathlib.Nat.{mod-eq_of_lt}
use nf_server.RingQueue.{Queue, live, create_q, destroy_q, push_q, pop_q}
use nf_server.RingQueue.Inv.{IsValid}
use nf_server.RingQueue.Items.{items}
use nf_server.RingQueue.Refine.{
  contents, pushed_block, push_q-IsValid, push_q_refines, pop_q-IsValid, pop_q_refines,
}
use nf_server.RingQueue.Fifo

-- A call of a client, and what it sees of it.
pub data Op : Type 0 where
  put : ℕ → Op
  get : Op

abbrev Reply : Type 0
Reply = ℤ × Option ℕ

unfoldable pub run : Queue → List Op → List Reply
run q [] = []
run q (put v ∷ ops) = let (r, q') = push_q q v in (r, none) ∷ run q' ops
run q (get ∷ ops) = let (r, out, q') = pop_q q in (r, out) ∷ run q' ops

pub run_fifo : ℕ → List ℕ → List Op → List Reply
run_fifo bound xs [] = []
run_fifo bound xs (put v ∷ ops) =
    let (r, xs') = Fifo.push bound xs v in (r, none) ∷ run_fifo bound xs' ops
run_fifo bound xs (get ∷ ops) = let (r, out, xs') = Fifo.pop xs in (r, out) ∷ run_fifo bound xs' ops

cap-push_q : (q : Queue) (v : ℕ) → (push_q q v).1.cap ≡ q.cap
unfolding push_q
cap-push_q q v = ground arith

cap-pop_q : (q : Queue) → (pop_q q).2.cap ≡ q.cap
unfolding pop_q
cap-pop_q q = ground arith

run-IsValid :
    (ops : List Op) (xs : List ℕ) {q : Queue}
    → IsValid xs q
    → run q ops ≡ run_fifo q.cap (contents xs q) ops
unfolding run run_fifo
run-IsValid [] xs i = refl
run-IsValid (put v ∷ ops) xs {q} i = rw (
  run-IsValid ops (pushed_block xs q v) (push_q-IsValid xs v i),
  ← push_q_refines xs v i,
  cap-push_q,
)
run-IsValid (get ∷ ops) xs i =
    rw (run-IsValid ops xs (pop_q-IsValid xs i), ← pop_q_refines xs i, cap-pop_q)

-- The queue that `create_q` makes in the block `xs`.
abbrev made : List ℕ → ℕ → Queue
made xs n = record { cap = n + 1; size = 0; rear = 1; front = 0; array = live xs }

create_q-made :
    (xs : List ℕ) (q : Queue) (n : ℕ) → 1 ≤ n → create_q (live xs) q (pos n) ≡ (success, made xs n)
unfolding create_q
create_q-made xs q n h = ground arith

made-IsValid : (xs : List ℕ) (n : ℕ) → 1 ≤ n → length xs ≡ n + 1 → IsValid xs (made xs n)
made-IsValid xs n h len = record {
  owned = refl;
  block = len;
  room = omega arith;
  front_in = omega arith;
  size_in = omega arith;
  rear_at = sym (mod-eq_of_lt (omega arith));
}

-- A queue created for a request of `n` (at least 1), with the block that `malloc` returned, answers
-- every sequence of pushes and pops as an empty first-in first-out list of at most `n + 1` values.
pub run-create_q :
    (xs : List ℕ) (q : Queue) (n : ℕ) (ops : List Op)
    → 1 ≤ n
    → length xs ≡ n + 1
    → ((create_q (live xs) q (pos n)).0 ≡ success)
      × (run (create_q (live xs) q (pos n)).1 ops ≡ run_fifo (n + 1) [] ops)
unfolding items
run-create_q xs q n ops h len =
    rw (create_q-made xs q n h) (refl, run-IsValid ops xs (made-IsValid xs n h len))

-- After `destroy_q` a push is refused. A pop is refused too if the queue was empty; if it was not,
-- the pop reports success and reads through the freed block.
destroy_q_calls :
    (xs : List ℕ) {q : Queue} (v : ℕ)
    → IsValid xs q
    → let d = (destroy_q q).1 in
      ((push_q d v).0 ≡ failure)
      × ((pop_q d).0 ≡ (if ltb 0 q.size then success else failure))
      × ((pop_q d).1 ≡ none)
unfolding destroy_q push_q pop_q
destroy_q_calls xs v i = ground arith
