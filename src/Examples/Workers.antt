-- ===== src/Examples/Workers.antt =====
-- Examples for NfUnit/extreactor.cpp and commonn/ThreadManager.cpp.
use nf_server.Prelude.{
  ℕ, zero, suc, ◌+◌, ◌<◌, ◌≡◌, ◌≢◌, ◌⊎◌, refl, Bool, total, true, false, Option, none, some, List,
  [], ◌∷◌, ◌++◌, get_elem?, length, if◌then◌else◌, ◌==◌,
}
use nf_server.Prelude.Int.{pos, success}
use nf_server.ThreadManager
use nf_server.ThreadManager.{run, join, join-run}
use nf_server.Timer.{to_int}
use nf_server.SyncReactor.Workers.{
  at_run, in_pop, at_emptystop, at_size, in_last_pop, ended, in_last_event, Workers, extfun,
  callback_at, ext_join, ext_destroy, works, stops, empties, Steps, none_yet, and_then,
}
use nf_server.SyncReactor.Workers.Moves.{is, in_hand}
use nf_server.SyncReactor.Workers.Stop.{queue-ended}
use nf_server.SyncReactor.Workers.Stuck.{ext_join-Steps}

-- One thread and one event, after `stopUntilEmpty`.
abbrev told : Workers
told = record {
  queue = 7 ∷ [];
  run = false;
  emptystop = true;
  threads = at_run ∷ [];
  taken = [];
  ran = [];
}

abbrev finished : Workers
finished = record {
  queue = [];
  run = false;
  emptystop = true;
  threads = ended ∷ [];
  taken = 7 ∷ [];
  ran = 7 ∷ [];
}

abbrev never : ℕ → Bool
never ev = false

finishes : Steps never told finished
unfolding callback_at extfun
finishes =
    and_then
      (and_then
        (and_then
          (and_then
            (and_then (and_then none_yet (works 0 at_run _ refl refl))
              (works 0 at_emptystop _ refl refl))
            (works 0 at_size _ refl refl))
          (works 0 in_last_pop _ refl refl))
        (works 0 (in_last_event 7) _ refl refl))
      (works 0 at_size _ refl refl)

one_runs : (j : ℕ) → get_elem? told.threads j ≢ some ended
one_runs zero e = cc
one_runs (suc j) e = cc

queue-ended_example :
    (finished.queue ≡ [])
    × (finished.taken ≡ [] ++ (7 ∷ []))
    × ((e : ℕ)
        → total (is e) finished.ran + total (in_hand e) finished.threads
          ≡ total (is e) told.ran + total (in_hand e) told.threads + total (is e) told.queue)
queue-ended_example =
    queue-ended never {w = told} {w' = finished} 0 (λ ev. refl) refl one_runs finishes refl

-- A thread that waits, and `stopUntilEmpty` after it.
abbrev waiting : Workers
waiting = record {
  queue = [];
  run = true;
  emptystop = false;
  threads = in_pop ∷ ended ∷ [];
  taken = [];
  ran = [];
}

abbrev stopped : Workers
stopped = record {
  queue = [];
  run = false;
  emptystop = true;
  threads = in_pop ∷ ended ∷ [];
  taken = [];
  ran = [];
}

ext_join-Steps_example :
    (get_elem? stopped.threads 0 ≡ some in_pop)
    × (stopped.queue ≡ [])
    × (ext_join stopped ≡ none)
    × (ext_destroy stopped ≡ none)
ext_join-Steps_example =
    ext_join-Steps never {w = waiting} {w' = stopped} 0 in_pop (λ ev. refl) refl refl refl
      (and_then (and_then none_yet stops) empties)

abbrev earlier : List ℕ
earlier = 9 ∷ []

-- The third call of `pthread_create` fails.
abbrev two_threads : ℕ → Option ℕ
two_threads i = if i == 0 then some 11 else if i == 1 then some 12 else none

join-run_example :
    (pids : List ℕ) × (run two_threads (pos 5) earlier
      ≡ (to_int (pos (length earlier + length pids)), earlier ++ pids))
    × ThreadManager.Creates two_threads 0 pids
    × ((length pids ≡ 5) ⊎ ((length pids < 5) × (two_threads (length pids) ≡ none)))
    × (join (run two_threads (pos 5) earlier).1 ≡ (success, earlier ++ pids, []))
join-run_example = join-run two_threads (pos 5) earlier
