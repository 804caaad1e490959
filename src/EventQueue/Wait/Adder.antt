-- ===== src/EventQueue/Wait/Adder.antt =====
-- A thread that sleeps in `push` or `pushs`.
use nf_server.Prelude.{
  ℕ, zero, suc, ◌+◌, ◌≤◌, ◌<◌, ◌≡◌, ◌⊎◌, refl, ◌∙◌, inl, inr, true, false, List, [], ◌∷◌, arith,
  Bool-cases, ◌==◌, ltb, leb, length, length-drop,
}
use nf_server.EventQueue.{
  EQueue, new_queue, set_max_size, size, empty, full, push, pushs, pop, pops, pops_loop,
  unlink_first, first_has_no_previous, link, link_all,
}
use nf_server.EventQueue.Links.{Holds}
use nf_server.EventQueue.Push.{AreFresh, pushs_lem}
use nf_server.EventQueue.Pop.{pop_lem, pops_lem}
use nf_server.EventQueue.Wait.{
  Call, a_push, a_pushs, a_pop, a_pops, Thread, Monitor, opened, takes, perform, perform_held,
  notice, signal, Wakes,
}
use nf_server.EventQueue.Wait.Counts.{sleepers, wakers, Wakes-counts, Wakes-signal}
use nf_server.EventQueue.Wait.Taker.{IsServed}

-- The events that are added are not NULL, not in the queue, and none comes twice; a call that takes
-- from a full queue of capacity `n` leaves an event in it.
abbrev pub Leaves : ℕ → List ℕ → Call → Type 0
Leaves n xs (a_push ev) = AreFresh xs (ev ∷ [])
Leaves n xs (a_pushs evs) = AreFresh xs evs
Leaves n xs a_pop = n ≤ length xs → 1 < length xs
Leaves n xs (a_pops items) = n ≤ length xs → items < length xs

cap-link_all : (evs : List ℕ) (q : EQueue) → (link_all evs q).cap ≡ q.cap
unfolding link_all link
cap-link_all [] q = refl
cap-link_all (ev ∷ evs) q = cap-link_all evs (link ev q) ∙ ground arith

cap-pops_loop : (k i : ℕ) (q : EQueue) → (pops_loop k i q).2.cap ≡ q.cap
unfolding pops_loop
cap-pops_loop zero i q = refl
cap-pops_loop (suc k) i q =
    ground (arith, cap-pops_loop k (i + 1) (first_has_no_previous (unlink_first q)))

pub cap-perform : (c : Call) (q : EQueue) → (perform c q).cap ≡ q.cap
unfolding push pushs pop pops
cap-perform (a_push ev) q = cap-link_all (ev ∷ []) q
cap-perform (a_pushs evs) q = cap-link_all evs q
cap-perform a_pop q = ground arith
cap-perform (a_pops items) q = cap-pops_loop items 0 q

-- The events that are added are not NULL, not in the queue, and none comes twice.
abbrev pub AreNew : List ℕ → Call → Type 0
AreNew xs (a_push ev) = AreFresh xs (ev ∷ [])
AreNew xs (a_pushs evs) = AreFresh xs evs
AreNew xs a_pop = Unit {0}
AreNew xs (a_pops items) = Unit {0}

pub Leaves-AreNew : (n : ℕ) (c : Call) (xs : List ℕ) → Leaves n xs c → AreNew xs c
Leaves-AreNew n (a_push ev) xs ok = ok
Leaves-AreNew n (a_pushs evs) xs ok = ok
Leaves-AreNew n a_pop xs ok = tt
Leaves-AreNew n (a_pops items) xs ok = tt

pub perform-Holds :
    (c : Call) {q : EQueue} (xs : List ℕ)
    → Holds q xs
    → AreNew xs c
    → Holds (perform c q) (perform_held c xs)
unfolding push
perform-Holds (a_push ev) xs h ok = (pushs_lem xs (ev ∷ []) h ok).1
perform-Holds (a_pushs evs) xs h ok = (pushs_lem xs evs h ok).1
perform-Holds a_pop xs h ok = (pop_lem xs h).1
perform-Holds (a_pops items) xs h ok = (pops_lem items xs h).2

pub full-Holds : {q : EQueue} (xs : List ℕ) → Holds q xs → full q ≡ leb q.cap (length xs)
unfolding full size
full-Holds xs h = rw h.counted refl

pub empty-Holds : {q : EQueue} (xs : List ℕ) → Holds q xs → empty q ≡ true → length xs ≡ 0
unfolding empty
empty-Holds [] h e = refl
empty-Holds (x ∷ xs) h e = absurd (ground (arith, h.links.first, h.links.linked.0))

pub opened-Holds : (n : ℕ) (next previous : ℕ → ℕ) → Holds (opened n next previous).queue []
unfolding new_queue set_max_size
opened-Holds n next previous = record {
  links = record { linked = tt; first = refl; last = refl; distinct = tt };
  counted = refl;
}

-- The queue holds its events, and where a thread that adds sleeps, one is woken or the queue is not
-- empty.
pub record IsFlowing (n : ℕ) (m : Monitor) : Type 0 where
  pub served : IsServed m
  pub holds : Holds m.queue m.held
  pub limit : m.queue.cap ≡ n
  pub adders : (sleepers false m.threads ≡ 0) ⊎ (0 < wakers false m.threads + length m.held)

-- A call that takes from a full queue leaves an event in it.
taken-full :
    (n : ℕ) (c : Call) (xs : List ℕ)
    → takes c ≡ true
    → Leaves n xs c
    → n ≤ length xs
    → 0 < length (perform_held c xs)
taken-full n (a_push ev) xs taker ok filled = absurd cc
taken-full n (a_pushs evs) xs taker ok filled = absurd cc
taken-full n a_pop xs taker ok filled = omega (arith, ok filled, length-drop 1 xs)
taken-full n (a_pops items) xs taker ok filled = omega (arith, ok filled, length-drop items xs)

-- A signal, where only threads that add sleep.
adders-signal :
    {ts us : List Thread} (c : Call) (w k : ℕ) (q : EQueue)
    → takes c ≡ true
    → full q ≡ false
    → sleepers true ts ≡ 0
    → sleepers true ts + sleepers false ts ≤ w
    → Wakes ts (notice c w q) us
    → (sleepers false us ≡ 0) ⊎ (0 < wakers false us + k)
adders-signal {ts} {us} c w k q taker room free few wakes = elim (Bool-cases (ltb 0 w)) [
  | inl some_wait ↦
      let sent : notice c w q ≡ signal = rw (taker, some_wait, room) refl in
      let one = Wakes-signal wakes sent in
      let same = (Wakes-counts false wakes).0 in
      elim (Bool-cases (sleepers false us == 0)) [
        | inl done ↦ inl (ground arith)
        | inr more ↦ inr (ground (arith, one, same))
      ]
  | inr none_wait ↦
      let zero_waits : w ≡ 0 = ground arith in inl (omega (arith, Wakes-counts false wakes))
]

-- A call that takes goes through.
pub adders-taker :
    (n : ℕ) {ts us : List Thread} (c : Call) (w : ℕ) {q : EQueue} (xs : List ℕ)
    → takes c ≡ true
    → Holds q xs
    → q.cap ≡ n
    → Leaves n xs c
    → sleepers true ts ≡ 0
    → sleepers true ts + sleepers false ts ≤ w
    → Wakes ts (notice c w q) us
    → (sleepers false us ≡ 0) ⊎ (0 < wakers false us + length (perform_held c xs))
adders-taker n {ts} {us} c w {q} xs taker h limit ok free few wakes = elim (Bool-cases (full q)) [
  | inl filled ↦
      let within : n ≤ length xs = ground (arith, full-Holds xs h) in
      inr (omega (arith, taken-full n c xs taker ok within))
  | inr room ↦ adders-signal c w (length (perform_held c xs)) q taker room free few wakes
]
