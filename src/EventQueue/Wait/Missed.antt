-- ===== src/EventQueue/Wait/Missed.antt =====
-- What a thread that takes from a full queue leaves asleep.
use nf_server.Prelude.{
  ℕ, zero, suc, ◌≤◌, ◌<◌, ◌≡◌, ◌≢◌, ◌⊎◌, inl, inr, Bool-cases, ◌==◌, refl, sym, ap, subst, ◌∙◌,
  true, false, some, some_injective, List, [], ◌∷◌, arith, get_elem?, set, get_elem?-set_ne,
  get_elem?-set_inv, get_elem?-append_inv, length, length-drop,
}
use nf_server.EventQueue.{full}
use nf_server.EventQueue.Links.{Holds}
use nf_server.EventQueue.Wait.{
  Call, a_push, a_pushs, a_pop, a_pops, Thread, arriving, asleep, woken, returned, Monitor, takes,
  perform, perform_held, notice, Notice, no_one, Wakes, silent, wakes_one, wakes_none, wakes_every,
  wake_all, Tests, Step, arrives, sleeps, goes, wakes_by_itself,
}
use nf_server.EventQueue.Wait.Adder.{AreNew, perform-Holds, cap-perform, full-Holds}

AreNew-taker : (c : Call) (xs : List ℕ) → takes c ≡ true → AreNew xs c
AreNew-taker (a_push ev) xs taker = absurd cc
AreNew-taker (a_pushs evs) xs taker = absurd cc
AreNew-taker a_pop xs taker = tt
AreNew-taker (a_pops items) xs taker = tt

Wakes-no_one : {ts us : List Thread} {n : Notice} → Wakes ts n us → n ≡ no_one → us ≡ ts
Wakes-no_one silent e = refl
Wakes-no_one (wakes_one i c _) e = absurd cc
Wakes-no_one (wakes_none _) e = absurd cc
Wakes-no_one wakes_every e = absurd cc

-- What a `pop` or `pops` of a full queue leaves: the signal is decided before the events are taken.
left_asleep :
    (m : Monitor) {us : List Thread} (i j : ℕ) (c d : Call) (w : ℕ)
    → Holds m.queue m.held
    → m.queue.cap ≤ length m.held
    → length (perform_held d m.held) < m.queue.cap
    → takes d ≡ true
    → i ≢ j
    → get_elem? m.threads i ≡ some (asleep c)
    → Wakes (set m.threads j returned) (notice d w m.queue) us
    → (get_elem? us i ≡ some (asleep c)) × (full (perform d m.queue) ≡ false)
left_asleep m {us} i j c d w h filled room taker apart e wakes =
    let is_full : full m.queue ≡ true = ground (arith, full-Holds m.held h) in
    let none_sent : notice d w m.queue ≡ no_one = rw (taker, is_full) (ground arith) in
    let same = Wakes-no_one wakes none_sent in
    (
      ap (λ (ts : List Thread). get_elem? ts i) same
          ∙ get_elem?-set_ne m.threads j i returned (λ eq. absurd (ground (arith, eq)))
          ∙ e,
      ground (
        arith,
        full-Holds (perform_held d m.held) (perform-Holds d m.held h (AreNew-taker d m.held taker)),
        cap-perform d m.queue,
      ),
    )

-- A call that takes at least one event.
abbrev pub TakesSome : Call → Type 0
TakesSome d = (d ≡ a_pop) ⊎ ((items : ℕ) × (d ≡ a_pops (suc items)))

TakesSome-takes : (d : Call) → TakesSome d → takes d ≡ true
TakesSome-takes d (inl e) = ap takes e
TakesSome-takes d (inr (items, e)) = ap takes e

TakesSome-shorter :
    (d : Call) (xs : List ℕ) → TakesSome d → 0 < length xs → length (perform_held d xs) < length xs
TakesSome-shorter d xs (inl e) some_in = rw e (omega (arith, length-drop 1 xs, some_in))
TakesSome-shorter d xs (inr (items, e)) some_in =
    rw e (omega (arith, length-drop (suc items) xs, some_in))

-- Threads that are woken have not returned by that.
returned-wake_all :
    (ts : List Thread) (j : ℕ)
    → get_elem? (wake_all ts) j ≡ some returned
    → get_elem? ts j ≡ some returned
returned-wake_all [] j e = e
returned-wake_all (arriving c ∷ ts) zero e = absurd cc
returned-wake_all (asleep c ∷ ts) zero e = absurd cc
returned-wake_all (woken c ∷ ts) zero e = absurd cc
returned-wake_all (returned ∷ ts) zero e = refl
returned-wake_all (t ∷ ts) (suc j) e = returned-wake_all ts j e

returned-Wakes :
    {ts us : List Thread} {n : Notice} (j : ℕ)
    → Wakes ts n us
    → get_elem? us j ≡ some returned
    → get_elem? ts j ≡ some returned
returned-Wakes j silent e = e
returned-Wakes {ts} j (wakes_one i c _) e = elim (get_elem?-set_inv ts i j returned (woken c) e) [
  | inl differs ↦ absurd cc
  | inr was ↦ was
]
returned-Wakes j (wakes_none _) e = e
returned-Wakes {ts} j wakes_every e = returned-wake_all ts j e

IsTesting-returned : (t : Thread) (d : Call) → (t ≡ arriving d) ⊎ (t ≡ woken d) → t ≢ returned
IsTesting-returned t d (inl e) same = cc
IsTesting-returned t d (inr e) same = cc

same_call :
    (t : Thread) (c d : Call) {w w' : ℕ} → (t ≡ arriving d) ⊎ (t ≡ woken d) → Tests t c w w' → c ≡ d
same_call t c d (inl e) (inl (f, _)) = arriving_injective (sym f ∙ e)
  where
    arriving_injective : arriving c ≡ arriving d → c ≡ d
    arriving_injective h = cc
same_call t c d (inl e) (inr (f, _)) = absurd cc
same_call t c d (inr e) (inl (f, _)) = absurd cc
same_call t c d (inr e) (inr (f, _)) = woken_injective (sym f ∙ e)
  where
    woken_injective : woken c ≡ woken d → c ≡ d
    woken_injective h = cc

-- In any step of any threads by which thread `j` returns from a `pop`, or a `pops` of at least one event,
-- of a queue that is full to its capacity and no more: every other thread that sleeps sleeps on, also
-- one that adds, although the queue is no longer full.
pub asleep-perform :
    {allow : List ℕ → Call → Type 0} {m m' : Monitor} (i j : ℕ) (c d : Call) (t : Thread)
    → Holds m.queue m.held
    → length m.held ≡ m.queue.cap
    → 0 < m.queue.cap
    → TakesSome d
    → i ≢ j
    → get_elem? m.threads i ≡ some (asleep c)
    → get_elem? m.threads j ≡ some t
    → (t ≡ arriving d) ⊎ (t ≡ woken d)
    → Step allow m m'
    → get_elem? m'.threads j ≡ some returned
    → (get_elem? m'.threads i ≡ some (asleep c)) × (full m'.queue ≡ false)
asleep-perform {allow} {m} i j c d t h filled wide taken apart e at test step end = go step end
  where
    not_yet : get_elem? m.threads j ≢ some returned
    not_yet was = IsTesting-returned t d test (some_injective (sym at ∙ was))

    go :
        {m' : Monitor}
        → Step allow m m'
        → get_elem? m'.threads j ≡ some returned
        → (get_elem? m'.threads i ≡ some (asleep c)) × (full m'.queue ≡ false)
    go (arrives c') end = elim (get_elem?-append_inv m.threads (arriving c') j returned end) [
      | inl differs ↦ absurd cc
      | inr was ↦ absurd (not_yet was)
    ]
    go (sleeps k t' c' w at' tests waits) end =
        elim (get_elem?-set_inv m.threads k j returned (asleep c') end) [
          | inl differs ↦ absurd cc
          | inr was ↦ absurd (not_yet was)
        ]
    go (wakes_by_itself k c' at') end =
        elim (get_elem?-set_inv m.threads k j returned (woken c') end) [
          | inl differs ↦ absurd cc
          | inr was ↦ absurd (not_yet was)
        ]
    go (goes k t' c' w ts at' tests free allowed wakes) end = elim (Bool-cases (k == j)) [
      | inl here ↦
          let is : k ≡ j = ground (arith, here) in
          let same : t' ≡ t = some_injective (sym at' ∙ ap (get_elem? m.threads) is ∙ at) in
          let call : c' ≡ d =
            same_call t c' d test (subst (λ x. Tests x c' m.waits w) same tests) in
          let some_taken : TakesSome c' = subst TakesSome (sym call) taken in
          let shorter = TakesSome-shorter c' m.held some_taken (omega (arith, filled, wide)) in
          left_asleep m i k c c' w h (omega (arith, filled)) (omega (arith, filled, shorter))
            (TakesSome-takes c' some_taken) (λ eq. apart (eq ∙ is)) e wakes
      | inr other ↦
          let ne : k ≢ j = λ eq. absurd (ground (arith, eq, other)) in
          absurd (
            not_yet (sym (get_elem?-set_ne m.threads k j returned ne) ∙ returned-Wakes j wakes end))
    ]
