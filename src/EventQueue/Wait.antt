-- ===== src/EventQueue/Wait.antt =====
-- How threads wait in BlockEQueue of NfUnit/eventqueue.h and NfUnit/eventqueue.cpp: one MCondition of
-- commonn/lock.h for those that add and those that take. A step is what a thread does from taking the
-- mutex to giving it up, in `wait` or at the return. `pthread_cond_wait` succeeds, and may return
-- with no signal.
mod Counts
pub mod Taker
pub mod Adder
pub mod Progress
pub mod Order
pub mod Missed
use nf_server.Prelude.{
  ℕ, ◌+◌, ◌-◌, ◌≡◌, ◌≢◌, ◌⊎◌, Bool, true, false, not, ◌&&◌, Option, some, List, [], ◌∷◌, ◌++◌, has,
  if◌then◌else◌, ◌==◌, ltb, length, set, get_elem?, drop,
}
use nf_server.EventQueue.{EQueue, empty, full, new_queue, set_max_size, pushs, push, pop, pops}

pub data Call : Type 0 where
  a_push : ℕ → Call
  a_pushs : List ℕ → Call
  a_pop : Call
  a_pops : ℕ → Call

-- `woken`: out of `pthread_cond_wait`, before it has the mutex again.
pub data Thread : Type 0 where
  arriving : Call → Thread
  asleep : Call → Thread
  woken : Call → Thread
  returned : Thread

-- The queue, the events in it, the `_waits` of the condition, and every thread that called so far.
pub record Monitor : Type 0 where
  pub queue : EQueue
  pub held : List ℕ
  pub waits : ℕ
  pub threads : List Thread

abbrev pub takes : Call → Bool
takes (a_push ev) = false
takes (a_pushs evs) = false
takes a_pop = true
takes (a_pops items) = true

-- The test of the loop round `_cond.wait`.
abbrev pub must_wait : Call → EQueue → Bool
must_wait c q = if takes c then empty q else full q

-- What the calls do to the queue.
abbrev pub perform : Call → EQueue → EQueue
perform (a_push ev) q = (push ev q).1
perform (a_pushs evs) q = (pushs (some evs) q).1
perform a_pop q = (pop q).1
perform (a_pops items) q = (pops items q).2

-- The same on the events in it.
abbrev pub perform_held : Call → List ℕ → List ℕ
perform_held (a_push ev) xs = xs ++ (ev ∷ [])
perform_held (a_pushs evs) xs = xs ++ evs
perform_held a_pop xs = drop 1 xs
perform_held (a_pops items) xs = drop items xs

pub data Notice : Type 0 where
  no_one : Notice
  signal : Notice
  signal_all : Notice

-- What the calls do to the condition, before they touch the queue.
abbrev pub notice : Call → ℕ → EQueue → Notice
notice c waits q =
    if takes c
    then (if ltb 0 waits && not (full q) then signal else no_one)
    else if waits == 1
    then signal
    else if ltb 1 waits
    then signal_all
    else no_one

abbrev pub wake : Thread → Thread
wake (arriving c) = arriving c
wake (asleep c) = woken c
wake (woken c) = woken c
wake returned = returned

abbrev pub wake_all : List Thread → List Thread
wake_all [] = []
wake_all (t ∷ ts) = wake t ∷ wake_all ts

-- A `signal` wakes one of the threads that sleep, if there is one.
pub data Wakes (ts : List Thread) : Notice → List Thread → Type 0 where
  silent : Wakes ts no_one ts
  wakes_one :
      (i : ℕ) (c : Call) → get_elem? ts i ≡ some (asleep c) → Wakes ts signal (set ts i (woken c))
  wakes_none : ((i : ℕ) (c : Call) → get_elem? ts i ≢ some (asleep c)) → Wakes ts signal ts
  wakes_every : Wakes ts signal_all (wake_all ts)

-- A thread that is about to test, with the call, and the `_waits` that it sees: `--_waits` is done.
abbrev pub Tests : Thread → Call → ℕ → ℕ → Type 0
Tests t c before after =
    ((t ≡ arriving c) × (after ≡ before)) ⊎ ((t ≡ woken c) × (after ≡ before - 1))

-- `allow` is what the program keeps to when a call goes through, with the events then in the queue.
pub data Step (allow : List ℕ → Call → Type 0) (m : Monitor) : Monitor → Type 0 where
  arrives : (c : Call) → Step allow m (record m { threads = m.threads ++ (arriving c ∷ []) })
  sleeps :
      (i : ℕ) (t : Thread) (c : Call) (w : ℕ)
      → get_elem? m.threads i ≡ some t
      → Tests t c m.waits w
      → must_wait c m.queue ≡ true
      → Step allow m (record m { waits = w + 1; threads = set m.threads i (asleep c) })
  goes :
      (i : ℕ) (t : Thread) (c : Call) (w : ℕ) (ts : List Thread)
      → get_elem? m.threads i ≡ some t
      → Tests t c m.waits w
      → must_wait c m.queue ≡ false
      → allow m.held c
      → Wakes (set m.threads i returned) (notice c w m.queue) ts
      → Step allow m (record {
        queue = perform c m.queue;
        held = perform_held c m.held;
        waits = w;
        threads = ts;
      })
  wakes_by_itself :
      (i : ℕ) (c : Call)
      → get_elem? m.threads i ≡ some (asleep c)
      → Step allow m (record m { threads = set m.threads i (woken c) })

-- Steps in any order.
pub data Steps (allow : List ℕ → Call → Type 0) (s : Monitor) : Monitor → Type 0 where
  none_yet : Steps allow s s
  and_then : {t u : Monitor} → Steps allow s t → Step allow t u → Steps allow s u

-- A queue of capacity `n` that no thread has called yet.
abbrev pub opened : ℕ → (ℕ → ℕ) → (ℕ → ℕ) → Monitor
opened n next previous = record {
  queue = set_max_size n (new_queue next previous);
  held = [];
  waits = 0;
  threads = [];
}
