-- ===== src/EventQueue/Wait/Counts.antt =====
-- How many threads sleep in `wait`, and how many are woken, of those that take and those that add.
use nf_server.Prelude.{
  ℕ, suc, ◌+◌, ◌-◌, ◌≤◌, ◌≡◌, ◌≢◌, refl, ap, ◌∙◌, inl, inr, Bool, true, false, some, List, [], ◌∷◌,
  ◌++◌, if◌then◌else◌, arith, get_elem?, set, total, total-append, total-set,
}
use nf_server.EventQueue.Wait.{
  Call, Thread, arriving, asleep, woken, returned, takes, Notice, signal, signal_all, wake_all,
  Wakes, silent, wakes_one, wakes_none, wakes_every, Tests,
}

-- 1 if the call is of that kind.
abbrev pub is_kind : Bool → Call → ℕ
is_kind true c = if takes c then 1 else 0
is_kind false c = if takes c then 0 else 1

abbrev pub is_asleep : Bool → Thread → ℕ
is_asleep b (arriving c) = 0
is_asleep b (asleep c) = is_kind b c
is_asleep b (woken c) = 0
is_asleep b returned = 0

abbrev pub is_woken : Bool → Thread → ℕ
is_woken b (arriving c) = 0
is_woken b (asleep c) = 0
is_woken b (woken c) = is_kind b c
is_woken b returned = 0

-- The threads of a kind, `true` for those that take, that sleep and that are woken.
unfoldable pub sleepers : Bool → List Thread → ℕ
sleepers b ts = total (is_asleep b) ts

unfoldable pub wakers : Bool → List Thread → ℕ
wakers b ts = total (is_woken b) ts

abbrev pub waiters : List Thread → ℕ
waiters ts = sleepers true ts + sleepers false ts + (wakers true ts + wakers false ts)

sleepers-wake_all : (b : Bool) (ts : List Thread) → sleepers b (wake_all ts) ≡ 0
unfolding sleepers
sleepers-wake_all b [] = refl
sleepers-wake_all b (arriving c ∷ ts) = omega (arith, sleepers-wake_all b ts)
sleepers-wake_all b (asleep c ∷ ts) = omega (arith, sleepers-wake_all b ts)
sleepers-wake_all b (woken c ∷ ts) = omega (arith, sleepers-wake_all b ts)
sleepers-wake_all b (returned ∷ ts) = omega (arith, sleepers-wake_all b ts)

wakers-wake_all :
    (b : Bool) (ts : List Thread) → wakers b (wake_all ts) ≡ sleepers b ts + wakers b ts
unfolding sleepers wakers
wakers-wake_all b [] = refl
wakers-wake_all b (arriving c ∷ ts) = omega (arith, wakers-wake_all b ts)
wakers-wake_all b (asleep c ∷ ts) = omega (arith, wakers-wake_all b ts)
wakers-wake_all b (woken c ∷ ts) = omega (arith, wakers-wake_all b ts)
wakers-wake_all b (returned ∷ ts) = omega (arith, wakers-wake_all b ts)

sleepers-none :
    (b : Bool) (ts : List Thread)
    → ((i : ℕ) (c : Call) → get_elem? ts i ≢ some (asleep c))
    → sleepers b ts ≡ 0
unfolding sleepers
sleepers-none b [] none_asleep = refl
sleepers-none b (arriving c ∷ ts) none_asleep =
    omega (arith, sleepers-none b ts (λ i d. none_asleep (suc i) d))
sleepers-none b (asleep c ∷ ts) none_asleep = absurd (none_asleep 0 c refl)
sleepers-none b (woken c ∷ ts) none_asleep =
    omega (arith, sleepers-none b ts (λ i d. none_asleep (suc i) d))
sleepers-none b (returned ∷ ts) none_asleep =
    omega (arith, sleepers-none b ts (λ i d. none_asleep (suc i) d))

-- A thread that is replaced.
pub sleepers-set :
    (b : Bool) (ts : List Thread) (i : ℕ) (t t' : Thread)
    → get_elem? ts i ≡ some t
    → sleepers b (set ts i t') + is_asleep b t ≡ sleepers b ts + is_asleep b t'
unfolding sleepers
sleepers-set b ts i t t' e = total-set (is_asleep b) ts i t t' e

pub wakers-set :
    (b : Bool) (ts : List Thread) (i : ℕ) (t t' : Thread)
    → get_elem? ts i ≡ some t
    → wakers b (set ts i t') + is_woken b t ≡ wakers b ts + is_woken b t'
unfolding wakers
wakers-set b ts i t t' e = total-set (is_woken b) ts i t t' e

pub sleepers-append :
    (b : Bool) (ts : List Thread) (c : Call) → sleepers b (ts ++ (arriving c ∷ [])) ≡ sleepers b ts
unfolding sleepers
sleepers-append b ts c = omega (arith, total-append (is_asleep b) ts (arriving c))

pub wakers-append :
    (b : Bool) (ts : List Thread) (c : Call) → wakers b (ts ++ (arriving c ∷ [])) ≡ wakers b ts
unfolding wakers
wakers-append b ts c = omega (arith, total-append (is_woken b) ts (arriving c))

-- A thread that sleeps is woken.
pub set-woken :
    (b : Bool) (ts : List Thread) (i : ℕ) (c : Call)
    → get_elem? ts i ≡ some (asleep c)
    → (sleepers b (set ts i (woken c)) + is_kind b c ≡ sleepers b ts)
      × (wakers b (set ts i (woken c)) ≡ wakers b ts + is_kind b c)
set-woken b ts i c e = (
  omega (arith, sleepers-set b ts i (asleep c) (woken c) e),
  omega (arith, wakers-set b ts i (asleep c) (woken c) e),
)

-- Any notice turns threads that sleep into woken ones of the same kind.
pub Wakes-counts :
    (b : Bool) {ts us : List Thread} {n : Notice}
    → Wakes ts n us
    → (sleepers b us + wakers b us ≡ sleepers b ts + wakers b ts) × (sleepers b us ≤ sleepers b ts)
Wakes-counts b silent = (refl, omega arith)
Wakes-counts b {ts} (wakes_one i c e) =
    let (s, w) = set-woken b ts i c e in (omega (arith, s, w), omega (arith, s))
Wakes-counts b (wakes_none none_asleep) = (refl, omega arith)
Wakes-counts b {ts} wakes_every =
    let s = sleepers-wake_all b ts in
    let w = wakers-wake_all b ts in (omega (arith, s, w), omega (arith, s))

-- A signal wakes exactly one thread, where any sleeps.
pub Wakes-signal :
    {ts us : List Thread} {n : Notice}
    → Wakes ts n us
    → n ≡ signal
    → sleepers true us + sleepers false us ≡ sleepers true ts + sleepers false ts - 1
Wakes-signal silent e = absurd cc
Wakes-signal {ts} (wakes_one i c e) _ =
    ground (arith, (set-woken true ts i c e).0, (set-woken false ts i c e).0)
Wakes-signal {ts} (wakes_none none_asleep) _ =
    omega (arith, sleepers-none true ts none_asleep, sleepers-none false ts none_asleep)
Wakes-signal wakes_every e = absurd cc

pub Wakes-signal_all :
    (b : Bool) {ts us : List Thread} {n : Notice}
    → Wakes ts n us
    → n ≡ signal_all
    → sleepers b us ≡ 0
Wakes-signal_all b silent e = absurd cc
Wakes-signal_all b (wakes_one i c _) e = absurd cc
Wakes-signal_all b (wakes_none _) e = absurd cc
Wakes-signal_all b {ts} wakes_every e = omega (arith, sleepers-wake_all b ts)

-- A thread that tests was none of the sleepers, and if it was woken, `_waits` has been counted down.
pub Tests-counts :
    (ts : List Thread) (i : ℕ) {t : Thread} {c : Call} {before after : ℕ} (t' : Thread)
    → get_elem? ts i ≡ some t
    → Tests t c before after
    → before ≡ waiters ts
    → ((b : Bool) → sleepers b (set ts i t') ≡ sleepers b ts + is_asleep b t')
      × (after + (is_asleep true t' + is_asleep false t' + (is_woken true t' + is_woken false t'))
          ≡ waiters (set ts i t'))
      × (takes c ≡ true → wakers false (set ts i t') ≡ wakers false ts + is_woken false t')
Tests-counts ts i {t} {c} t' e (inl (same, w)) count =
    let e' : get_elem? ts i ≡ some (arriving c) = e ∙ ap some same in
    let s : (b : Bool) → sleepers b (set ts i t') ≡ sleepers b ts + is_asleep b t' =
      λ b. omega (arith, sleepers-set b ts i (arriving c) t' e') in
    let w' : (b : Bool) → wakers b (set ts i t') ≡ wakers b ts + is_woken b t' =
      λ b. omega (arith, wakers-set b ts i (arriving c) t' e') in
    (s, omega (arith, s true, s false, w' true, w' false), λ _. w' false)
Tests-counts ts i {t} {c} t' e (inr (same, w)) count =
    let e' : get_elem? ts i ≡ some (woken c) = e ∙ ap some same in
    let s : (b : Bool) → sleepers b (set ts i t') ≡ sleepers b ts + is_asleep b t' =
      λ b. omega (arith, sleepers-set b ts i (woken c) t' e') in
    let more : wakers true (set ts i t') + is_kind true c ≡ wakers true ts + is_woken true t' =
      wakers-set true ts i (woken c) t' e' in
    let less : wakers false (set ts i t') + is_kind false c ≡ wakers false ts + is_woken false t' =
      wakers-set false ts i (woken c) t' e' in
    let gone : wakers true (set ts i returned) + is_kind true c ≡ wakers true ts =
      omega (arith, wakers-set true ts i (woken c) returned e') in
    let gone' : wakers false (set ts i returned) + is_kind false c ≡ wakers false ts =
      omega (arith, wakers-set false ts i (woken c) returned e') in
    let kinds : is_kind true c + is_kind false c ≡ 1 = ground arith in
    (
      s,
      omega (arith, s true, s false, more, less, gone, gone', kinds),
      λ (taker : takes c ≡ true).
          let other : is_kind false c ≡ 0 = rw taker refl in omega (arith, less, other),
    )
