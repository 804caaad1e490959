-- ===== src/EventQueue/Wait/Progress.antt =====
-- No deadlock between the threads that add and those that take.
use nf_server.Prelude.{
  ℕ, suc, ◌+◌, ◌≤◌, ◌<◌, ◌≡◌, ◌⊎◌, refl, ◌∙◌, inl, inr, true, false, some, List, [], ◌∷◌, arith,
  get_elem?, set, Bool-cases, length,
}
use nf_server.EventQueue.{EQueue, empty, full, new_queue, set_max_size}
use nf_server.EventQueue.Links.{Holds}
use nf_server.EventQueue.Wait.{
  Call, Thread, arriving, asleep, woken, returned, Monitor, takes, must_wait, perform_held, notice,
  Wakes, Tests, Step, arrives, sleeps, goes, wakes_by_itself, Steps, none_yet, and_then, opened,
}
use nf_server.EventQueue.Wait.Counts.{
  sleepers, wakers, is_kind, sleepers-append, wakers-append, set-woken, Tests-counts,
}
use nf_server.EventQueue.Wait.Adder.{
  Leaves, IsFlowing, adders-taker, Leaves-AreNew, opened-Holds, cap-perform, perform-Holds,
  full-Holds, empty-Holds,
}
use nf_server.EventQueue.Wait.Taker.{
  Step-IsServed, opened-IsServed, sleepers-adder, sleepers-asleep,
}

adders-test :
    (n : ℕ) (k l : ℕ) (c : Call) {q : EQueue} (xs : List ℕ)
    → 0 < n
    → Holds q xs
    → q.cap ≡ n
    → (k ≡ 0) ⊎ (0 < l + length xs)
    → must_wait c q ≡ true
    → (takes c ≡ true) ⊎ (0 < length xs)
adders-test n k l c {q} xs positive h limit v waits = elim (Bool-cases (takes c)) [
  | inl taker ↦ inl taker
  | inr adder ↦
      let filled : full q ≡ true = rw adder at waits in inr (ground (arith, full-Holds xs h))
]

adders-sleep :
    (k l k' l' x : ℕ) (c : Call)
    → (k ≡ 0) ⊎ (0 < l + x)
    → (takes c ≡ true) ⊎ (0 < x)
    → k' ≡ k + is_kind false c
    → (takes c ≡ true → l' ≡ l)
    → (k' ≡ 0) ⊎ (0 < l' + x)
adders-sleep k l k' l' x c v (inr pos_x) e same = inr (omega arith)
adders-sleep k l k' l' x c (inl free) (inl taker) e same =
    let other : is_kind false c ≡ 0 = rw taker refl in inl (omega (arith, other))
adders-sleep k l k' l' x c (inr flows) (inl taker) e same = inr (omega (arith, same taker))

adders-go :
    (n : ℕ) {m : Monitor} {us : List Thread} (i : ℕ) {t : Thread} (c : Call) (w : ℕ)
    → IsFlowing n m
    → get_elem? m.threads i ≡ some t
    → Tests t c m.waits w
    → must_wait c m.queue ≡ false
    → Leaves n m.held c
    → Wakes (set m.threads i returned) (notice c w m.queue) us
    → (sleepers false us ≡ 0) ⊎ (0 < wakers false us + length (perform_held c m.held))
adders-go n {m} {us} i c w v e tests goes_on ok wakes =
    let (s, count, _) = Tests-counts m.threads i returned e tests v.served.counted in
    let few : sleepers true (set m.threads i returned) + sleepers false (set m.threads i returned)
        ≤ w =
      omega (arith, count) in
    elim (Bool-cases (takes c)) [
      | inl taker ↦
          let not_empty : empty m.queue ≡ false = rw taker at goes_on in
          elim v.served.takers [
            | inl free ↦
                let free' : sleepers true (set m.threads i returned) ≡ 0 =
                  omega (arith, s true, free) in
                adders-taker n c w m.held taker v.holds v.limit ok free' few wakes
            | inr nothing ↦ absurd (ground arith)
          ]
      | inr adder ↦ inl (omega (arith, sleepers-adder c w m.queue adder few wakes))
    ]

adders-woken :
    (k l k' l' x y : ℕ) → (k ≡ 0) ⊎ (0 < l + x) → k' + y ≡ k → l' ≡ l + y → (k' ≡ 0) ⊎ (0 < l' + x)
adders-woken k l k' l' x y (inl free) e f = inl (omega arith)
adders-woken k l k' l' x y (inr flows) e f = inr (omega arith)

Step-IsFlowing :
    (n : ℕ) {m m' : Monitor} → 0 < n → IsFlowing n m → Step (Leaves n) m m' → IsFlowing n m'
Step-IsFlowing n {m} positive v (arrives c) = record {
  served = Step-IsServed {allow = Leaves n} v.served (arrives c);
  holds = v.holds;
  limit = v.limit;
  adders =
      adders-woken (sleepers false m.threads) (wakers false m.threads) _ _ (length m.held) 0
        v.adders (omega (arith, sleepers-append false m.threads c))
        (omega (arith, wakers-append false m.threads c));
}
Step-IsFlowing n {m} positive v (sleeps i t c w e tests waits) =
    let (s, _, same) = Tests-counts m.threads i (asleep c) e tests v.served.counted in
    let blocked =
      adders-test n (sleepers false m.threads) (wakers false m.threads) c m.held positive v.holds
        v.limit v.adders waits in
    record {
      served = Step-IsServed {allow = Leaves n} v.served (sleeps i t c w e tests waits);
      holds = v.holds;
      limit = v.limit;
      adders =
          adders-sleep (sleepers false m.threads) (wakers false m.threads) _ _ (length m.held) c
            v.adders blocked (s false) (λ taker. omega (arith, same taker));
    }
Step-IsFlowing n {m} positive v (goes i t c w ts e tests on ok wakes) = record {
  served = Step-IsServed {allow = Leaves n} v.served (goes i t c w ts e tests on ok wakes);
  holds = perform-Holds c m.held v.holds (Leaves-AreNew n c m.held ok);
  limit = cap-perform c m.queue ∙ v.limit;
  adders = adders-go n i c w v e tests on ok wakes;
}
Step-IsFlowing n {m} positive v (wakes_by_itself i c e) =
    let (s, w) = set-woken false m.threads i c e in
    record {
      served = Step-IsServed {allow = Leaves n} v.served (wakes_by_itself i c e);
      holds = v.holds;
      limit = v.limit;
      adders =
          adders-woken (sleepers false m.threads) (wakers false m.threads) _ _ (length m.held)
            (is_kind false c) v.adders s w;
    }

Steps-IsFlowing :
    (n : ℕ) {m m' : Monitor} → 0 < n → IsFlowing n m → Steps (Leaves n) m m' → IsFlowing n m'
Steps-IsFlowing n positive v none_yet = v
Steps-IsFlowing n positive v (and_then before step) =
    Step-IsFlowing n positive (Steps-IsFlowing n positive v before) step

opened-IsFlowing : (n : ℕ) (next previous : ℕ → ℕ) → IsFlowing n (opened n next previous)
unfolding sleepers new_queue set_max_size
opened-IsFlowing n next previous = record {
  served = opened-IsServed n next previous;
  holds = opened-Holds n next previous;
  limit = refl;
  adders = inl refl;
}

wakers-find :
    (ts : List Thread)
    → 0 < wakers false ts
    → (j : ℕ) × (d : Call) × (get_elem? ts j ≡ some (woken d)) × (takes d ≡ false)
unfolding wakers
wakers-find [] some_woken = absurd (omega arith)
wakers-find (arriving c ∷ ts) some_woken =
    let (j, d, e, k) = wakers-find ts (omega arith) in (suc j, d, e, k)
wakers-find (asleep c ∷ ts) some_woken =
    let (j, d, e, k) = wakers-find ts (omega arith) in (suc j, d, e, k)
wakers-find (woken c ∷ ts) some_woken = elim (Bool-cases (takes c)) [
  | inl taker ↦ let (j, d, e, k) = wakers-find ts (ground arith) in (suc j, d, e, k)
  | inr adder ↦ (0, c, refl, adder)
]
wakers-find (returned ∷ ts) some_woken =
    let (j, d, e, k) = wakers-find ts (omega arith) in (suc j, d, e, k)

-- After any steps of any threads on a new BlockEQueue of capacity `n`, above 0, where what is added is
-- not NULL, not in the queue and not twice in a call, and a call that takes from a full queue leaves an
-- event in it (`pop` does so from capacity 2 on): where the queue is empty and a thread sleeps in the
-- `wait` of `push` or `pushs`, there is a thread of these that is woken and that its test lets through.
pub woken-asleep :
    (n : ℕ) (next previous : ℕ → ℕ) {m : Monitor} (i : ℕ) (c : Call)
    → 0 < n
    → Steps (Leaves n) (opened n next previous) m
    → get_elem? m.threads i ≡ some (asleep c)
    → takes c ≡ false
    → empty m.queue ≡ true
    → (j : ℕ) × (d : Call) × (get_elem? m.threads j ≡ some (woken d))
      × (takes d ≡ false)
      × (must_wait d m.queue ≡ false)
woken-asleep n next previous {m} i c positive steps e adder nothing =
    let v = Steps-IsFlowing n positive (opened-IsFlowing n next previous) steps in
    let none_held = empty-Holds m.held v.holds nothing in
    let (j, d, woken_d, kind) = wakers-find m.threads (elim v.adders [
      | inl free ↦ absurd (omega (arith, sleepers-asleep false m.threads i c e adder))
      | inr flows ↦ omega (arith, flows, none_held)
    ]) in
    (j, d, woken_d, kind, rw kind (ground (arith, full-Holds m.held v.holds, v.limit)))
