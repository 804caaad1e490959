-- ===== src/EventQueue/Wait/Order.antt =====
-- What goes into a BlockEQueue and what comes out of it.
use nf_server.Prelude.{
  ℕ, zero, suc, ◌≡◌, refl, sym, ap, ◌∙◌, false, List, [], ◌∷◌, ◌++◌, append_assoc, append-nil,
  arith, take, drop,
}
use nf_server.EventQueue.{EQueue, empty, pop, pops}
use nf_server.EventQueue.Links.{Holds}
use nf_server.EventQueue.Pop.{pop_lem, pops_lem}
use nf_server.EventQueue.Wait.{
  Call, a_push, a_pushs, a_pop, a_pops, Monitor, must_wait, perform_held, arrives, sleeps, goes,
  wakes_by_itself, Steps, none_yet, and_then, opened,
}
use nf_server.EventQueue.Wait.Adder.{AreNew, perform-Holds, opened-Holds}

-- The events that a call adds, and those that it returns.
abbrev pub added_by : Call → List ℕ
added_by (a_push ev) = ev ∷ []
added_by (a_pushs evs) = evs
added_by a_pop = []
added_by (a_pops items) = []

abbrev pub taken_by : Call → EQueue → List ℕ
taken_by (a_push ev) q = []
taken_by (a_pushs evs) q = []
taken_by a_pop q = (pop q).0 ∷ []
taken_by (a_pops items) q = (pops items q).1

-- All of these, in the order of the steps.
module _ {allow : List ℕ → Call → Type 0} where
  abbrev pub added : {s t : Monitor} → Steps allow s t → List ℕ
  added none_yet = []
  added (and_then before (arrives c)) = added before
  added (and_then before (sleeps i t c w e tests waits)) = added before
  added (and_then before (goes i t c w ts e tests on ok wakes)) = added before ++ added_by c
  added (and_then before (wakes_by_itself i c e)) = added before

  abbrev pub taken : {s t : Monitor} → Steps allow s t → List ℕ
  taken none_yet = []
  taken (and_then before (arrives c)) = taken before
  taken (and_then before (sleeps i t c w e tests waits)) = taken before
  taken (and_then {t = m} before (goes i t c w ts e tests on ok wakes)) =
      taken before ++ taken_by c m.queue
  taken (and_then before (wakes_by_itself i c e)) = taken before

take-append-drop : (n : ℕ) (xs : List ℕ) → take n xs ++ drop n xs ≡ xs
take-append-drop zero xs = refl
take-append-drop (suc n) [] = refl
take-append-drop (suc n) (x ∷ xs) = ap (λ (l : List ℕ). x ∷ l) (take-append-drop n xs)

-- One call.
taken_by-added_by :
    (c : Call) {q : EQueue} (xs : List ℕ)
    → Holds q xs
    → must_wait c q ≡ false
    → taken_by c q ++ perform_held c xs ≡ xs ++ added_by c
unfolding empty
taken_by-added_by (a_push ev) xs h on = refl
taken_by-added_by (a_pushs evs) xs h on = refl
taken_by-added_by a_pop [] h on = absurd (ground (arith, h.links.first))
taken_by-added_by a_pop (x ∷ xs) h on =
    ap (λ (y : ℕ). y ∷ xs) (pop_lem (x ∷ xs) h).0 ∙ sym (append-nil (x ∷ xs))
taken_by-added_by (a_pops items) xs h on =
    ap (λ (l : List ℕ). l ++ drop items xs) (pops_lem items xs h).1
    ∙ take-append-drop items xs
    ∙ sym (append-nil xs)

-- After any steps of any threads on a new BlockEQueue, where what is added is not NULL, not in the queue
-- and not twice in a call: the queue is well formed, and what `pop` and `pops` have returned, in the order
-- of the calls, followed by the events in the queue are the events that `push` and `pushs` have added, in
-- the order of the calls.
pub taken-added :
    (n : ℕ) (next previous : ℕ → ℕ) {m : Monitor} (steps : Steps AreNew (opened n next previous) m)
    → Holds m.queue m.held × (taken steps ++ m.held ≡ added steps)
taken-added n next previous none_yet = (opened-Holds n next previous, refl)
taken-added n next previous (and_then before (arrives c)) = taken-added n next previous before
taken-added n next previous (and_then before (sleeps i t c w e tests waits)) =
    taken-added n next previous before
taken-added n next previous (and_then {t = m} before (goes i t c w ts e tests on ok wakes)) =
    let (h, order) = taken-added n next previous before in
    (
      perform-Holds c m.held h ok,
      append_assoc (taken before) (taken_by c m.queue) (perform_held c m.held)
          ∙ ap (λ (l : List ℕ). taken before ++ l) (taken_by-added_by c m.held h on)
          ∙ sym (append_assoc (taken before) m.held (added_by c))
          ∙ ap (λ (l : List ℕ). l ++ added_by c) order,
    )
taken-added n next previous (and_then before (wakes_by_itself i c e)) =
    taken-added n next previous before
