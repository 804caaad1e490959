-- ===== src/ThreadPool.antt =====
-- commonn/ThreadPool.h and commonn/ThreadPool.cpp: the pool that hands each task to the worker its index
-- selects. A worker's thread moves one step at a time; what runs between taking and releasing the lock
-- of `CThreadNotify` is one step. `run` and `delete` of a task are outside the model: `ran` notes the tasks
-- that are finished, the oldest first.
pub mod Order
pub mod Progress
pub mod Start
use nf_server.Prelude.{
  ℕ, zero, suc, ◌+◌, ◌%◌, Bool, true, false, Option, none, some, List, [], ◌∷◌, ◌++◌, if◌then◌else◌,
  get_elem?, set, leb, length, replicate,
}
use nf_server.Prelude.Int.{ℤ, pos, negsuc, success, failure, ltb_ℤ}
use nf_server.Buffer.{overwrite}

-- `idx` is what selects the worker; `task` tells the tasks apart.
pub record Task : Type 0 where
  pub idx : ℤ
  pub task : ℕ

-- A worker's thread is about to look at its list, waits for the signal, or runs a task.
pub data Phase : Type 0 where
  looking asleep : Phase
  running : Task → Phase

pub record Worker : Type 0 where
  pub thread_idx : ℕ
  pub task_cnt : ℕ
  pub task_list : List Task
  pub work_buff : Option (List ℕ)
  pub work_len : ℕ
  pub phase : Phase
  pub ran : List Task

-- The constructor.
abbrev pub new_worker : Worker
new_worker = record {
  thread_idx = 0;
  task_cnt = 0;
  task_list = [];
  work_buff = none;
  work_len = 0;
  phase = looking;
  ran = [];
}

-- `SetBuff` with what `malloc` returns: NULL is written through.
unfoldable pub set_buff : Option (List ℕ) → ℕ → Worker → Option Worker
set_buff none size w = none
set_buff (some block) size w =
    some (record w { work_buff = some (overwrite block 0 (replicate size 0)); work_len = size })

-- A round of `Execute` up to where the thread lets the lock go, and the end of the round. A thread that
-- waits makes no step of its own.
unfoldable pub execute : Worker → Worker
execute w = elim w.phase [
  | looking ↦ elim w.task_list [
    | [] ↦ record w { phase = asleep }
    | task ∷ rest ↦ record w { phase = running task; task_list = rest }
  ]
  | asleep ↦ w
  | running task ↦ record w {
    phase = looking;
    task_cnt = w.task_cnt + 1;
    ran = w.ran ++ (task ∷ []);
  }
]

-- The thread wakes, because of a signal or without one.
abbrev pub wake : Phase → Phase
wake looking = looking
wake asleep = looking
wake (running task) = running task

-- `PushTask`, whose signal wakes the worker's thread where it waits.
unfoldable pub push_task : Task → Worker → Worker
push_task task w = record w { task_list = w.task_list ++ (task ∷ []); phase = wake w.phase }

-- `m_worker_list`.
pub data Workers : Type 0 where
  null : Workers
  live : List Worker → Workers
  deleted : Workers

pub record Pool : Type 0 where
  pub worker_size : ℤ
  pub worker_list : Workers

abbrev pub new_pool : Pool
new_pool = record { worker_size = pos 0; worker_list = null }

-- The loops of `init`, for `k` workers from `i` on: without and with a buffer.
unfoldable pub started : ℕ → ℕ → List Worker
started i zero = []
started i (suc k) = record new_worker { thread_idx = i } ∷ started (i + 1) k

unfoldable pub started_with : (ℕ → Option (List ℕ)) → ℕ → ℕ → ℕ → Option (List Worker)
unfolding set_buff
started_with malloc size i zero = some []
started_with malloc size i (suc k) =
    elim (set_buff (malloc i) size (record new_worker { thread_idx = i })) [
      | none ↦ none
      | some w ↦ elim (started_with malloc size (i + 1) k) [ none ↦ none | some ws ↦ some (w ∷ ws) ]
    ]

-- `init`; `malloc` gives the block for each worker's buffer. `new` throws where it finds no memory.
unfoldable pub init : (ℕ → Option (List ℕ)) → (worker_size buff_size : ℤ) → Pool → Option (ℤ × Pool)
unfolding started started_with
init malloc (negsuc n) buff_size p = some (success, p)
init malloc (pos zero) buff_size p = some (success, p)
init malloc (pos (suc n)) (negsuc m) p =
    some (success, record { worker_size = pos (suc n); worker_list = live (started 0 (suc n)) })
init malloc (pos (suc n)) (pos zero) p =
    some (success, record { worker_size = pos (suc n); worker_list = live (started 0 (suc n)) })
init malloc (pos (suc n)) (pos (suc m)) p = elim (started_with malloc (suc m) 0 (suc n)) [
  | none ↦ none
  | some ws ↦ some (success, record { worker_size = pos (suc n); worker_list = live ws })
]

-- `Destory`: an array is deleted, and a second time where it was.
unfoldable pub destory : Pool → Option Pool
destory p = elim p.worker_list [
  | null ↦ some p
  | live ws ↦ some (record p { worker_list = deleted })
  | deleted ↦ none
]

-- `AddTask` returns -1, pushes the task and reaches the end without a return, or goes to a worker that is
-- not there.
pub data Added : Type 0 where
  returned : ℤ → Pool → Added
  no_return : Pool → Added
  no_worker : Added

-- `PushTask` of the worker at an index.
unfoldable pub push_at : ℕ → Task → List Worker → Option (List Worker)
unfolding push_task
push_at i task ws = elim (get_elem? ws i) [
  | none ↦ none
  | some w ↦ some (set ws i (push_task task w))
]

unfoldable pub add_at : Pool → Option (List Worker) → Added
add_at p none = no_worker
add_at p (some ws) = no_return (record p { worker_list = live ws })

abbrev pub array : Workers → List Worker
array null = []
array (live ws) = ws
array deleted = []

-- The remainder of a negative `idx` is not positive: only 0 is an index.
abbrev pub index : ℤ → ℕ → Option ℕ
index (pos n) size = some (n % size)
index (negsuc n) size = elim (suc n % size) [ zero ↦ some 0 | suc i ↦ none ]

unfoldable pub add_task : Task → Pool → Added
unfolding add_at push_at
add_task task p = elim p.worker_size [
  | negsuc n ↦ returned failure p
  | pos zero ↦ returned failure p
  | pos (suc n) ↦ elim (index task.idx (suc n)) [
    | none ↦ no_worker
    | some i ↦ add_at p (push_at i task (array p.worker_list))
  ]
]

-- `set_pthread_data` and `get_pthread_data`, on what the key of a thread holds.
unfoldable pub set_pthread_data : ℕ → Option ℕ → ℤ × Option ℕ
set_pthread_data worker none = (success, some worker)
set_pthread_data worker (some old) = (success, some old)
