-- ===== src/EventQueue/Drain.antt =====
-- `~BlockEQueue` of NfUnit/eventqueue.cpp: the loop that takes what is left and releases it.
use nf_server.Prelude.{
  ℕ, zero, suc, ◌<◌, ◌≡◌, refl, sym, ap, ◌∙◌, Option, none, some, List, [], ◌∷◌, ◌++◌, ltb, true,
  if◌then◌else◌, false, ◌==◌, arith, length, append_assoc, append-nil,
}
use nf_server.EventQueue.{EQueue, null, size, pop}
use nf_server.EventQueue.Links.{Holds}
use nf_server.EventQueue.Pop.{pop_lem}

-- The loop of `~BlockEQueue` on fuel, with the events released so far, first to last. `none`: the
-- fuel ran out, or `release` was called on NULL.
pub release_all : ℕ → List ℕ → EQueue → Option (List ℕ × EQueue)
release_all zero released q = none
release_all (suc fuel) released q =
    let (ev, q') = pop q in
    let rest = release_all fuel (released ++ (ev ∷ [])) q' in
    if ltb 0 (size q) then (if ev == null then none else rest) else some (released, q)

size-Holds : {q : EQueue} (xs : List ℕ) → Holds q xs → size q ≡ length xs
unfolding size
size-Holds xs h = rw h.counted refl

release_all-Holds :
    (fuel : ℕ) (released : List ℕ) {q : EQueue} (xs : List ℕ)
    → Holds q xs
    → length xs < fuel
    → (q' : EQueue) × (release_all fuel released q ≡ some (released ++ xs, q')) × Holds q' []
unfolding release_all
release_all-Holds zero released xs h enough = absurd (omega arith)
release_all-Holds (suc fuel) released {q} [] h enough =
    (q, rw (size-Holds [] h) (ap (λ (l : List ℕ). some (l, q)) (sym (append-nil released))), h)
release_all-Holds (suc fuel) released {q} (x ∷ xs) h enough =
    let (first, holds) = pop_lem (x ∷ xs) h in
    let (q', run, nothing) =
      release_all-Holds fuel (released ++ (x ∷ [])) {q = (pop q).1} xs holds (omega arith) in
    let more : ltb 0 (suc (length xs)) ≡ true = ground arith in
    let not_null : (x == null) ≡ false = ground (arith, h.links.linked.0) in
    (
      q',
      rw (size-Holds (x ∷ xs) h, more, first, not_null)
          (run ∙ ap (λ (l : List ℕ). some (l, q')) (append_assoc released (x ∷ []) xs)),
      nothing,
    )

-- The destructor of a BlockEQueue that holds the events `xs` ends, after one round for each event: it
-- has released each of them once, in their order, and none else, and the queue is empty.
pub release_all_lem :
    {q : EQueue} (xs : List ℕ)
    → Holds q xs
    → (q' : EQueue) × (release_all (suc (length xs)) [] q ≡ some (xs, q')) × Holds q' []
release_all_lem {q} xs h = release_all-Holds (suc (length xs)) [] xs h (omega arith)
