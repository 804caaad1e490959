-- ===== src/Examples/Threads.antt =====
-- Examples for ThreadPool.cpp and iref.h.
use nf_server.Prelude.{
  ◌+◌, ◌==◌, ◌≡◌, refl, none, some, [], ◌∷◌, ◌++◌, if◌then◌else◌, arith, get_elem?,
}
use nf_server.Prelude.Int.{pos}
use nf_server.ThreadPool.{
  Task, Worker, Pool, new_worker, init, push_task, execute, array, add_task, started,
}
use nf_server.ThreadPool.Progress.{IsRight, still, own, pushed, pending, task_is_run}
use nf_server.ThreadPool.Order.{pool, start, added, assigned}
use nf_server.ThreadPool.Start.{add_task-IsInOrder}
use nf_server.SmartPtr.{at, Heap, create, copy}
use nf_server.SmartPtr.Safety.{IsCounted}
use nf_server.SmartPtr.Uses.{Uses, created, copied, no_objects, uses-IsCounted}

abbrev first : Task
first = record { idx = pos 4; task = 1 }

abbrev second : Task
second = record { idx = pos 6; task = 2 }

-- A worker with a task in its list; another is pushed while it runs.
abbrev busy : Worker
busy = record new_worker { task_list = first ∷ [] }

busy-IsRight : IsRight busy
busy-IsRight = record { awake = λ e. absurd cc; counted = refl }

abbrev finished : Worker
finished = execute (push_task second (execute busy))

task_is_run_example : get_elem? finished.ran 0 ≡ some first
task_is_run_example =
    task_is_run 0 first busy-IsRight (own (pushed second (own still))) refl (omega arith)

-- Two workers, and the tasks for the first.
abbrev fresh : Pool
fresh = pool 1 (started 0 2)

abbrev with_first : Pool
with_first = pool 1 (push_task first new_worker ∷ record new_worker { thread_idx = 1 } ∷ [])

add_task-IsInOrder_example :
    (w : Worker) × (get_elem? (array with_first.worker_list) 0 ≡ some w)
    × (w.ran ++ pending w ≡ assigned 1 0 (first ∷ []))
    × IsRight w
unfolding init add_task started
add_task-IsInOrder_example =
    add_task-IsInOrder {p = fresh} (λ i. none) 1 0 (pos 0) refl (added first refl start)
      (omega arith)

abbrev shared : Heap
shared = record {
  refs = λ x. if x == 3 then 1 + 1 else if x == 3 then 1 else 0;
  freed = [];
  slots = at 3 ∷ at 3 ∷ [];
}

shared-Uses : Uses no_objects shared
unfolding create copy
shared-Uses = copied 0 (created 3 Uses.start refl) refl

uses-IsCounted_example : IsCounted shared
uses-IsCounted_example = uses-IsCounted shared-Uses
