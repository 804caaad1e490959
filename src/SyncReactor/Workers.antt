-- ===== src/SyncReactor/Workers.antt =====
-- The threads of an EXTReactor of NfUnit/extreactor.cpp: `callback` in any number of threads on one
-- BlockEQueue, with `stop`, `stopUntilEmpty`, `join` and the destructor. Each read of a field, each `pop`
-- and each `extEvent` is one step; `pop` waits where the queue is empty. `again` says of which events
-- `extEvent` is not done after the callback, so that it posts them to the EXTReactor; other posts are
-- outside the model.
pub mod Moves
pub mod Stop
pub mod Stuck
use nf_server.Prelude.{
  ℕ, ◌≡◌, Bool, true, false, Option, none, some, List, [], ◌∷◌, ◌++◌, get_elem?, set, if◌then◌else◌,
  replicate, length,
}
use nf_server.Prelude.Int.{ℤ, pos, ltb_ℤ}
use nf_server.ThreadManager.{run}

-- Where a thread is in `callback`: before `while (_run)`, in `_queue->pop()` of the first loop, before
-- `if (_emptystop)`, before `while(_queue->size() > 0)`, in `pop` of the second loop, or at its end; and,
-- in each loop, between `pop` and the end of `extEvent`, with the event.
pub data Place : Type 0 where
  at_run in_pop at_emptystop at_size in_last_pop ended : Place
  in_event in_last_event : ℕ → Place

-- `taken` holds the events that `pop` gave and `ran` those whose callbacks were called, the oldest first.
pub record Workers : Type 0 where
  pub queue : List ℕ
  pub run : Bool
  pub emptystop : Bool
  pub threads : List Place
  pub taken : List ℕ
  pub ran : List ℕ

abbrev pub put : ℕ → Place → Workers → Workers
put j p w = record w { threads = set w.threads j p }

-- `extfun` up to `pop`. `none`: the thread waits.
unfoldable pub extfun : ℕ → (ℕ → Place) → Workers → Option Workers
extfun j next w = elim w.queue [
  | [] ↦ none
  | ev ∷ evs ↦
      some (record w {
        queue = evs;
        threads = set w.threads j (next ev);
        taken = w.taken ++ (ev ∷ []);
      })
]

-- `extEvent` of `extfun`, which runs without the mutex of the queue, and the way back to the test of the
-- loop.
abbrev pub handle_event : (ℕ → Bool) → ℕ → Place → ℕ → Workers → Workers
handle_event again j back ev w = record w {
  queue = if again ev then w.queue ++ (ev ∷ []) else w.queue;
  threads = set w.threads j back;
  ran = w.ran ++ (ev ∷ []);
}

abbrev pub is_empty : List ℕ → Bool
is_empty [] = true
is_empty (ev ∷ evs) = false

-- A step of `callback` of thread `j`.
unfoldable pub callback_at : (ℕ → Bool) → Place → ℕ → Workers → Option Workers
unfolding extfun
callback_at again at_run j w = some (put j (if w.run then in_pop else at_emptystop) w)
callback_at again in_pop j w = extfun j in_event w
callback_at again at_emptystop j w = some (put j (if w.emptystop then at_size else ended) w)
callback_at again at_size j w = some (put j (if is_empty w.queue then ended else in_last_pop) w)
callback_at again in_last_pop j w = extfun j in_last_event w
callback_at again (in_event ev) j w = some (handle_event again j at_run ev w)
callback_at again (in_last_event ev) j w = some (handle_event again j at_size ev w)
callback_at again ended j w = none

-- `stop`, and the two writes of `stopUntilEmpty`.
abbrev pub clear_run : Workers → Workers
clear_run w = record w { run = false }

abbrev pub set_emptystop : Workers → Workers
set_emptystop w = record w { emptystop = true }

-- What the threads and the callers of `stop` and `stopUntilEmpty` do.
pub data Step (again : ℕ → Bool) (w : Workers) : Workers → Type 0 where
  works :
      (j : ℕ) (p : Place) (w' : Workers)
      → get_elem? w.threads j ≡ some p
      → callback_at again p j w ≡ some w'
      → Step again w w'
  stops : Step again w (clear_run w)
  empties : Step again w (set_emptystop w)

pub data Steps (again : ℕ → Bool) (w : Workers) : Workers → Type 0 where
  none_yet : Steps again w w
  and_then : {t u : Workers} → Steps again w t → Step again t u → Steps again w u

-- Whether every thread has ended.
abbrev pub can_join : List Place → Bool
can_join [] = true
can_join (at_run ∷ ps) = false
can_join (in_pop ∷ ps) = false
can_join (at_emptystop ∷ ps) = false
can_join (at_size ∷ ps) = false
can_join (in_last_pop ∷ ps) = false
can_join (in_event ev ∷ ps) = false
can_join (in_last_event ev ∷ ps) = false
can_join (ended ∷ ps) = can_join ps

-- `join`, and the destructor with the events that it releases; `none`: they wait for ever.
abbrev pub ext_join : Workers → Option Workers
ext_join w = if can_join w.threads then some (record w { threads = [] }) else none

abbrev pub release_left : List ℕ → List ℕ
release_left [] = []
release_left (ev ∷ evs) = ev ∷ release_left evs

abbrev pub ext_destroy : Workers → Option (List ℕ)
ext_destroy w = if can_join w.threads then some (release_left w.queue) else none

-- `run`, on a queue: the threads that `pthread_create` gave, or the caller itself.
unfoldable pub ext_run : (ℕ → Option ℕ) → ℤ → List ℕ → Workers
ext_run create threadsnum queue = record {
  queue = queue;
  run = true;
  emptystop = false;
  threads =
      if ltb_ℤ (pos 0) threadsnum
      then replicate (length (run create threadsnum []).1) at_run
      else at_run ∷ [];
  taken = [];
  ran = [];
}
