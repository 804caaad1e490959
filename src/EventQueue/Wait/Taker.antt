-- ===== src/EventQueue/Wait/Taker.antt =====
-- A thread that sleeps in `pop` or `pops`.
use nf_server.Prelude.{
  ℕ, ◌+◌, ◌≤◌, ◌<◌, ◌≡◌, ◌⊎◌, refl, ◌∙◌, inl, inr, Bool, true, false, some, List, arith, get_elem?,
  set, Bool-cases, ◌==◌, ltb,
}
use nf_server.EventQueue.{EQueue, empty}
use nf_server.EventQueue.Wait.{
  Call, Thread, asleep, returned, Monitor, takes, must_wait, notice, Notice, signal, signal_all,
  Wakes, Tests, Step, arrives, sleeps, goes, wakes_by_itself, Steps, none_yet, and_then, opened,
}
use nf_server.EventQueue.Wait.Counts.{
  sleepers, wakers, waiters, is_kind, sleepers-append, wakers-append, set-woken, Wakes-counts,
  Wakes-signal, Wakes-signal_all, Tests-counts,
}

-- `_waits` is the number of the threads in `wait`, and none of those that take sleeps at a queue that
-- is not empty.
pub record IsServed (m : Monitor) : Type 0 where
  pub counted : m.waits ≡ waiters m.threads
  pub takers : (sleepers true m.threads ≡ 0) ⊎ (empty m.queue ≡ true)

-- A thread that tests returns, and a notice wakes others.
pub goes-counts :
    (ts : List Thread) {us : List Thread} (i : ℕ) {t : Thread} {c : Call} {n : Notice}
    {before w : ℕ}
    → get_elem? ts i ≡ some t
    → Tests t c before w
    → before ≡ waiters ts
    → Wakes (set ts i returned) n us
    → (w ≡ waiters us)
      × (sleepers true ts + sleepers false ts ≤ w)
      × ((b : Bool) → sleepers b us ≤ sleepers b ts)
goes-counts ts {us} i {t} {c} e tests count wakes =
    let (s, w, _) = Tests-counts ts i returned e tests count in
    let takers = Wakes-counts true wakes in
    let adders = Wakes-counts false wakes in
    let fewer : (b : Bool) → sleepers b us ≤ sleepers b ts =
      λ b. omega (arith, s b, Wakes-counts b wakes) in
    (omega (arith, w, takers, adders), omega (arith, w, s true, s false), fewer)

-- A thread that adds leaves no thread asleep.
pub sleepers-adder :
    {ts us : List Thread} (c : Call) (w : ℕ) (q : EQueue)
    → takes c ≡ false
    → sleepers true ts + sleepers false ts ≤ w
    → Wakes ts (notice c w q) us
    → sleepers true us + sleepers false us ≡ 0
sleepers-adder {ts} {us} c w q adder few wakes = elim (Bool-cases (w == 1)) [
  | inl one ↦
      let is_one : w ≡ 1 = ground arith in
      let sent : notice c w q ≡ signal = rw (adder, one) refl in
      omega (arith, Wakes-signal wakes sent, is_one)
  | inr other ↦ elim (Bool-cases (ltb 1 w)) [
    | inl more ↦
        let sent : notice c w q ≡ signal_all = rw (adder, other, more) refl in
        omega (arith, Wakes-signal_all true wakes sent, Wakes-signal_all false wakes sent)
    | inr less ↦
        let none_left : w ≡ 0 = ground arith in
        omega (arith, Wakes-counts true wakes, Wakes-counts false wakes, none_left)
  ]
]

sleepers-test :
    (q : EQueue) (k : ℕ) (c : Call)
    → (k ≡ 0) ⊎ (empty q ≡ true)
    → must_wait c q ≡ true
    → (k + is_kind true c ≡ 0) ⊎ (empty q ≡ true)
sleepers-test q k c v waits = elim (Bool-cases (takes c)) [
  | inl taker ↦ inr (rw taker at waits)
  | inr adder ↦ elim v [ inl free ↦ inl (rw adder (omega arith)) | inr nothing ↦ inr nothing ]
]

-- Who goes on, takes from a queue that is not empty, or leaves nobody asleep.
sleepers-go :
    {ts us : List Thread} (c : Call) (w : ℕ) (q : EQueue)
    → (sleepers true ts ≡ 0) ⊎ (empty q ≡ true)
    → sleepers true ts + sleepers false ts ≤ w
    → must_wait c q ≡ false
    → Wakes ts (notice c w q) us
    → sleepers true us ≡ 0
sleepers-go {ts} {us} c w q v few goes_on wakes = elim (Bool-cases (takes c)) [
  | inl taker ↦
      let not_empty : empty q ≡ false = rw taker at goes_on in
      elim v [
        | inl free ↦ omega (arith, Wakes-counts true wakes)
        | inr nothing ↦ absurd (ground arith)
      ]
  | inr adder ↦ omega (arith, sleepers-adder c w q adder few wakes)
]

pub Step-IsServed :
    {allow : List ℕ → Call → Type 0} {m m' : Monitor} → IsServed m → Step allow m m' → IsServed m'
Step-IsServed {m} v (arrives c) =
    let s = sleepers-append true m.threads c in
    record {
      counted = omega (
        arith,
        v.counted,
        s,
        sleepers-append false m.threads c,
        wakers-append true m.threads c,
        wakers-append false m.threads c,
      );
      takers = elim v.takers [ inl free ↦ inl (s ∙ free) | inr nothing ↦ inr nothing ];
    }
Step-IsServed {m} v (sleeps i t c w e tests waits) =
    let (s, count, _) = Tests-counts m.threads i (asleep c) e tests v.counted in
    let kinds : is_kind true c + is_kind false c ≡ 1 = ground arith in
    record {
      counted = omega (arith, count, kinds);
      takers = elim (sleepers-test m.queue (sleepers true m.threads) c v.takers waits) [
        | inl free ↦ inl (s true ∙ free)
        | inr nothing ↦ inr nothing
      ];
    }
Step-IsServed {m} v (goes i t c w ts e tests on allowed wakes) =
    let (s, _, _) = Tests-counts m.threads i returned e tests v.counted in
    let (count, few, fewer) = goes-counts m.threads i e tests v.counted wakes in
    let same : sleepers true (set m.threads i returned) ≡ sleepers true m.threads =
      omega (arith, s true) in
    let few' : sleepers true (set m.threads i returned) + sleepers false (set m.threads i returned)
        ≤ w =
      omega (arith, few, s true, s false) in
    record {
      counted = count;
      takers = inl (sleepers-go c w m.queue (rw same v.takers) few' on wakes);
    }
Step-IsServed {m} v (wakes_by_itself i c e) =
    let takers = set-woken true m.threads i c e in
    let adders = set-woken false m.threads i c e in
    record {
      counted = omega (arith, v.counted, takers, adders);
      takers = elim v.takers [ inl free ↦ inl (omega (arith, takers)) | inr nothing ↦ inr nothing ];
    }

pub Steps-IsServed :
    {allow : List ℕ → Call → Type 0} {m m' : Monitor} → IsServed m → Steps allow m m' → IsServed m'
Steps-IsServed v none_yet = v
Steps-IsServed v (and_then before step) = Step-IsServed (Steps-IsServed v before) step

pub opened-IsServed : (n : ℕ) (next previous : ℕ → ℕ) → IsServed (opened n next previous)
unfolding sleepers wakers
opened-IsServed n next previous = record { counted = refl; takers = inl refl }

pub sleepers-asleep :
    (b : Bool) (ts : List Thread) (i : ℕ) (c : Call)
    → get_elem? ts i ≡ some (asleep c)
    → takes c ≡ b
    → 0 < sleepers b ts
sleepers-asleep true ts i c e taker =
    let one : is_kind true c ≡ 1 = rw taker refl in omega (arith, set-woken true ts i c e, one)
sleepers-asleep false ts i c e adder =
    let one : is_kind false c ≡ 1 = rw adder refl in omega (arith, set-woken false ts i c e, one)

-- After any steps of any threads on a new BlockEQueue, whatever calls they make, a thread that sleeps in the `wait` of `pop` or
-- `pops` sleeps at an empty queue: no `push` or `pushs` leaves one asleep.
pub empty-asleep :
    (n : ℕ) (next previous : ℕ → ℕ) {allow : List ℕ → Call → Type 0} {m : Monitor} (i : ℕ)
    (c : Call)
    → Steps allow (opened n next previous) m
    → get_elem? m.threads i ≡ some (asleep c)
    → takes c ≡ true
    → empty m.queue ≡ true
empty-asleep n next previous {m} i c steps e taker =
    elim (Steps-IsServed (opened-IsServed n next previous) steps).takers [
      | inl free ↦ absurd (omega (arith, sleepers-asleep true m.threads i c e taker))
      | inr nothing ↦ nothing
    ]
