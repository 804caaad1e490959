-- ===== src/EventQueue/Block.antt =====
-- BlockEQueue of NfUnit/eventqueue.h and NfUnit/eventqueue.cpp: `push` and `pop` of any number of
-- threads. Each runs under the mutex, waits while the queue is full or empty, and then is one step.
use nf_server.Prelude.{
  ℕ, ◌≤◌, ◌<◌, ◌≡◌, ◌≢◌, refl, sym, ap, ◌∙◌, true, false, Option, none, some, List, [], ◌∷◌, ◌++◌,
  append_assoc, arith, has, if◌then◌else◌, ◌==◌, length, length-append, drop,
}
use nf_server.EventQueue.{
  EQueue, null, size, empty, full, new_queue, set_max_size, pushs, push, pop, link, link_all,
}
use nf_server.EventQueue.Links.{Holds}
use nf_server.EventQueue.Push.{pushs_lem}
use nf_server.EventQueue.Pop.{pop_lem}

-- `BlockEQueue::push`, where `none` is a caller that waits.
unfoldable pub block_push : ℕ → EQueue → Option EQueue
block_push ev q = if full q then none else some (push ev q).1

-- `BlockEQueue::pop`.
pub block_pop : EQueue → Option (ℕ × EQueue)
block_pop q = if empty q then none else some (pop q)

-- The queue with the events pushed so far, those popped, and those that are in it.
pub record State : Type 0 where
  pub queue : EQueue
  pub pushed : List ℕ
  pub popped : List ℕ
  pub held : List ℕ

-- A step of one thread. An event that is pushed must not be NULL or in the queue.
pub data Step (s : State) : State → Type 0 where
  pushes :
      (ev : ℕ) (q : EQueue)
      → ev ≢ null
      → has ev s.held ≡ false
      → block_push ev s.queue ≡ some q
      → Step s (record {
        queue = q;
        pushed = s.pushed ++ (ev ∷ []);
        popped = s.popped;
        held = s.held ++ (ev ∷ []);
      })
  pops :
      (ev : ℕ) (q : EQueue)
      → block_pop s.queue ≡ some (ev, q)
      → Step s (record {
        queue = q;
        pushed = s.pushed;
        popped = s.popped ++ (ev ∷ []);
        held = drop 1 s.held;
      })

-- Steps in any interleaving.
pub data Steps (s : State) : State → Type 0 where
  none_yet : Steps s s
  and_then : {t u : State} → Steps s t → Step t u → Steps s u

abbrev pub started : ℕ → (ℕ → ℕ) → (ℕ → ℕ) → State
started n next previous = record {
  queue = set_max_size n (new_queue next previous);
  pushed = [];
  popped = [];
  held = [];
}

-- What holds in every state.
pub record IsSound (n : ℕ) (s : State) : Type 0 where
  pub holds : Holds s.queue s.held
  pub ordered : s.popped ++ s.held ≡ s.pushed
  pub bounded : length s.held ≤ n
  pub limit : s.queue.cap ≡ n

cap-push : (ev : ℕ) (q : EQueue) → (push ev q).1.cap ≡ q.cap
unfolding push pushs link_all link
cap-push ev q = ground arith

cap-pop : (q : EQueue) → (pop q).1.cap ≡ q.cap
unfolding pop
cap-pop q = ground arith

pushed_some :
    (ev : ℕ) (q q' : EQueue) (xs : List ℕ)
    → Holds q xs
    → block_push ev q ≡ some q'
    → (length xs < q.cap) × (q' ≡ (push ev q).1)
unfolding block_push full size
pushed_some ev q q' xs h e = (ground (arith, h.counted), ground (arith, h.counted))

popped_some :
    (ev : ℕ) (q q' : EQueue) (xs : List ℕ)
    → Holds q xs
    → block_pop q ≡ some (ev, q')
    → (ev ∷ drop 1 xs ≡ xs) × (q' ≡ (pop q).1)
unfolding block_pop empty
popped_some ev q q' [] h e =
    let nothing : (q.begin == null) ≡ true = ground (arith, h.links.first) in absurd (ground arith)
popped_some ev q q' (x ∷ xs) h e =
    let same : ev ≡ (pop q).0 = ground arith in
    (ap (λ (t : ℕ). t ∷ xs) (same ∙ (pop_lem (x ∷ xs) h).0), ground arith)

start-IsSound : (n : ℕ) (next previous : ℕ → ℕ) → IsSound n (started n next previous)
unfolding new_queue set_max_size
start-IsSound n next previous = record {
  holds = record {
    links = record { linked = tt; first = refl; last = refl; distinct = tt };
    counted = refl;
  };
  ordered = refl;
  bounded = omega arith;
  limit = refl;
}

Step-IsSound : (n : ℕ) {s t : State} → IsSound n s → Step s t → IsSound n t
unfolding push
Step-IsSound n {s} {t} v (pushes ev q ne out e) =
    let did = pushed_some ev s.queue q s.held v.holds e in
    record {
      holds = rw did.1 (pushs_lem s.held (ev ∷ []) v.holds (ne, out, tt)).1;
      ordered =
          sym (append_assoc s.popped s.held (ev ∷ []))
          ∙ ap (λ (l : List ℕ). l ++ (ev ∷ [])) v.ordered;
      bounded = omega (arith, did.0, v.limit, length-append s.held (ev ∷ []));
      limit = ap (λ (r : EQueue). r.cap) did.1 ∙ cap-push ev s.queue ∙ v.limit;
    }
Step-IsSound n {s} {t} v (pops ev q e) =
    let did = popped_some ev s.queue q s.held v.holds e in
    record {
      holds = rw did.1 (pop_lem s.held v.holds).1;
      ordered =
          append_assoc s.popped (ev ∷ []) (drop 1 s.held)
          ∙ ap (λ (l : List ℕ). s.popped ++ l) did.0
          ∙ v.ordered;
      bounded = omega (arith, v.bounded, ap length did.0);
      limit = ap (λ (r : EQueue). r.cap) did.1 ∙ cap-pop s.queue ∙ v.limit;
    }

Steps-IsSound : (n : ℕ) {s t : State} → IsSound n s → Steps s t → IsSound n t
Steps-IsSound n v none_yet = v
Steps-IsSound n v (and_then before step) = Step-IsSound n (Steps-IsSound n v before) step

-- After any interleaving of `push` and `pop` calls of any threads on a new BlockEQueue of capacity `n`,
-- none of which pushes NULL or an event that is in the queue, the queue is well formed and holds at most `n` events, and the events popped so far, in the order of
-- the pops, followed by those in the queue are the events pushed, in the order of the pushes.
fifo_of_Steps :
    (n : ℕ) (next previous : ℕ → ℕ) {s : State}
    → Steps (started n next previous) s
    → Holds s.queue s.held × (s.popped ++ s.held ≡ s.pushed) × (length s.held ≤ n)
fifo_of_Steps n next previous steps =
    let v = Steps-IsSound n (start-IsSound n next previous) steps in (v.holds, v.ordered, v.bounded)
