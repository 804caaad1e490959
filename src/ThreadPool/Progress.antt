-- ===== src/ThreadPool/Progress.antt =====
-- A worker's thread gets to every task in its list, and in the order of the list.
use nf_server.Prelude.{
  ℕ, suc, ◌+◌, ◌*◌, ◌≤◌, ◌<◌, ◌≡◌, ◌⊎◌, refl, sym, ap, ◌∙◌, inl, inr, some, List, [], ◌∷◌, ◌++◌,
  append-nil, append_assoc, arith, get_elem?, get_elem?-append_left, get_elem?-append_right,
  get_elem?-within, length, length-append,
}
use nf_server.ThreadPool.{Task, Phase, looking, asleep, running, Worker, execute, wake, push_task}

-- The tasks that a worker has and has not finished.
abbrev pub taken : Phase → List Task
taken looking = []
taken asleep = []
taken (running task) = task ∷ []

abbrev pub pending : Worker → List Task
pending w = taken w.phase ++ w.task_list

abbrev pub all_tasks : Worker → List Task
all_tasks w = w.ran ++ pending w

-- A thread sleeps only over an empty list, and counts the tasks that it finished.
pub record IsRight (w : Worker) : Type 0 where
  pub awake : w.phase ≡ asleep → w.task_list ≡ []
  pub counted : w.task_cnt ≡ length w.ran

-- What happens to a worker: its thread makes `n` steps of its own, and in between tasks are pushed
-- and the thread wakes for no reason.
pub data Moves : ℕ → Worker → List Task → Worker → Type 0 where
  still : {w : Worker} → Moves 0 w [] w
  own : {n : ℕ} {w w' : Worker} {ts : List Task} → Moves n (execute w) ts w' → Moves (suc n) w ts w'
  pushed :
      {n : ℕ} {w w' : Worker} {ts : List Task} (task : Task)
      → Moves n (push_task task w) ts w'
      → Moves n w (task ∷ ts) w'
  woken :
      {n : ℕ} {w w' : Worker} {ts : List Task}
      → Moves n (record w { phase = wake w.phase }) ts w'
      → Moves n w ts w'

taken-wake : (p : Phase) → taken (wake p) ≡ taken p
taken-wake looking = refl
taken-wake asleep = refl
taken-wake (running task) = refl

assoc3 : {A : Type 0} (xs ys zs us : List A) → xs ++ (ys ++ (zs ++ us)) ≡ (xs ++ (ys ++ zs)) ++ us
assoc3 xs ys zs us =
    ap (λ t. xs ++ t) (sym (append_assoc ys zs us)) ∙ sym (append_assoc xs (ys ++ zs) us)

-- Twice the tasks that are finished, and one for the task that runs.
abbrev begun : Phase → ℕ
begun looking = 0
begun asleep = 0
begun (running task) = 1

abbrev credit : Worker → ℕ
credit w = 2 * length w.ran + begun w.phase

module _ (w : Worker) where
  -- The worker with another phase and another list.
  abbrev at : Phase → List Task → Worker
  at p ts = record w { phase = p; task_list = ts }

  all_tasks-execute :
      (p : Phase) (ts : List Task) → all_tasks (execute (at p ts)) ≡ all_tasks (at p ts)
  unfolding execute
  all_tasks-execute looking [] = refl
  all_tasks-execute looking (t ∷ ts) = refl
  all_tasks-execute asleep ts = refl
  all_tasks-execute (running t) ts = append_assoc w.ran (t ∷ []) ts

  execute-IsRight : (p : Phase) (ts : List Task) → IsRight (at p ts) → IsRight (execute (at p ts))
  unfolding execute
  execute-IsRight looking [] v = record { awake = λ e. refl; counted = v.counted }
  execute-IsRight looking (t ∷ ts) v = record { awake = λ e. cc; counted = v.counted }
  execute-IsRight asleep ts v = v
  execute-IsRight (running t) ts v = record {
    awake = λ e. cc;
    counted = ground (arith, v.counted, length-append w.ran (t ∷ []));
  }

  push_task-IsRight :
      (t : Task) (p : Phase) (ts : List Task) → IsRight (at p ts) → IsRight (push_task t (at p ts))
  unfolding push_task
  push_task-IsRight t looking ts v = record { awake = λ e. cc; counted = v.counted }
  push_task-IsRight t asleep ts v = record { awake = λ e. cc; counted = v.counted }
  push_task-IsRight t (running u) ts v = record { awake = λ e. cc; counted = v.counted }

  all_tasks-push_task :
      (t : Task) (p : Phase)
      → all_tasks (push_task t (at p w.task_list)) ≡ all_tasks (at p w.task_list) ++ (t ∷ [])
  unfolding push_task
  all_tasks-push_task t p = rw (taken-wake p) (assoc3 w.ran (taken p) w.task_list (t ∷ []))

  -- A step is progress unless everything is finished.
  credit-execute :
      (p : Phase) (ts : List Task)
      → IsRight (at p ts)
      → (credit (execute (at p ts)) ≡ credit (at p ts) + 1)
        ⊎ ((execute (at p ts)).ran ≡ w.ran)
          × (pending (at p ts) ≡ [])
          × (credit (execute (at p ts)) ≡ credit (at p ts))
  unfolding execute
  credit-execute looking [] v = inr (refl, refl, refl)
  credit-execute looking (t ∷ ts) v = inl (omega arith)
  credit-execute asleep ts v = inr (refl, v.awake refl, refl)
  credit-execute (running t) ts v = inl (omega (arith, length-append w.ran (t ∷ [])))

  wake-IsRight : (p : Phase) (ts : List Task) → IsRight (at p ts) → IsRight (at (wake p) ts)
  wake-IsRight looking ts v = v
  wake-IsRight asleep ts v = record { awake = λ e. cc; counted = v.counted }
  wake-IsRight (running t) ts v = v

  credit-wake : (p : Phase) → credit (at (wake p) w.task_list) ≡ credit (at p w.task_list)
  credit-wake looking = refl
  credit-wake asleep = refl
  credit-wake (running t) = refl

  credit-push_task :
      (t : Task) (p : Phase) → credit (push_task t (at p w.task_list)) ≡ credit (at p w.task_list)
  unfolding push_task
  credit-push_task t p = credit-wake p

-- No move loses a task, runs one twice or changes their order.
pub Moves-all_tasks :
    {n : ℕ} {w w' : Worker} {ts : List Task} → Moves n w ts w' → all_tasks w' ≡ all_tasks w ++ ts
Moves-all_tasks {w = w} still = sym (append-nil (all_tasks w))
Moves-all_tasks {w = w} {ts = ts} (own m) =
    Moves-all_tasks m ∙ ap (λ us. us ++ ts) (all_tasks-execute w w.phase w.task_list)
Moves-all_tasks {w = w} (pushed {ts = ts} t m) =
    Moves-all_tasks m
    ∙ ap (λ us. us ++ ts) (all_tasks-push_task w t w.phase)
    ∙ append_assoc (all_tasks w) (t ∷ []) ts
Moves-all_tasks {w = w} {ts = ts} (woken m) =
    Moves-all_tasks m ∙ ap (λ us. (w.ran ++ (us ++ w.task_list)) ++ ts) (taken-wake w.phase)

pub Moves-IsRight :
    {n : ℕ} {w w' : Worker} {ts : List Task} → Moves n w ts w' → IsRight w → IsRight w'
Moves-IsRight still v = v
Moves-IsRight {w = w} (own m) v = Moves-IsRight m (execute-IsRight w w.phase w.task_list v)
Moves-IsRight {w = w} (pushed t m) v = Moves-IsRight m (push_task-IsRight w t w.phase w.task_list v)
Moves-IsRight {w = w} (woken m) v = Moves-IsRight m (wake-IsRight w w.phase w.task_list v)

Moves-mono :
    {n : ℕ} {w w' : Worker} {ts : List Task} → Moves n w ts w' → IsRight w → credit w ≤ credit w'
Moves-mono still v = omega arith
Moves-mono {w = w} (own m) v =
    let rest = Moves-mono m (execute-IsRight w w.phase w.task_list v) in
    elim (credit-execute w w.phase w.task_list v) [
      | inl more ↦ omega (arith, rest, more)
      | inr (_, _, same) ↦ omega (arith, rest, same)
    ]
Moves-mono {w = w} (pushed t m) v = omega (
  arith,
  Moves-mono m (push_task-IsRight w t w.phase w.task_list v),
  credit-push_task w t w.phase,
)
Moves-mono {w = w} (woken m) v =
    omega (arith, Moves-mono m (wake-IsRight w w.phase w.task_list v), credit-wake w w.phase)

-- Each step of the thread earns one, or the first `l` tasks are finished.
Moves-credit :
    {n : ℕ} {w w' : Worker} {ts : List Task} (l : ℕ)
    → Moves n w ts w'
    → IsRight w
    → l ≤ length (all_tasks w)
    → (2 * l ≤ credit w') ⊎ (credit w + n ≤ credit w')
Moves-credit l still v h = inr (omega arith)
Moves-credit {w = w} l (own m) v h =
    let u = execute-IsRight w w.phase w.task_list v in
    elim (credit-execute w w.phase w.task_list v) [
      | inl more ↦
          let size = ap length (all_tasks-execute w w.phase w.task_list) in
          elim (Moves-credit l m u (omega (arith, size))) [
            | inl here ↦ inl here
            | inr far ↦ inr (omega (arith, far, more))
          ]
      | inr (_, nothing, same) ↦
          inl (
            omega (arith, Moves-mono m u, same, length-append w.ran (pending w), ap length nothing))
    ]
Moves-credit {w = w} l (pushed t m) v h =
    let size = ap length (all_tasks-push_task w t w.phase) in
    elim (Moves-credit l m (push_task-IsRight w t w.phase w.task_list v)
      (omega (arith, size, length-append (all_tasks w) (t ∷ [])))) [
        | inl here ↦ inl here
        | inr far ↦ inr (omega (arith, far, credit-push_task w t w.phase))
      ]
Moves-credit {w = w} l (woken m) v h =
    let size = ap (λ us. length (w.ran ++ (us ++ w.task_list))) (taken-wake w.phase) in
    elim (Moves-credit l m (wake-IsRight w w.phase w.task_list v) (omega (arith, size))) [
      | inl here ↦ inl here
      | inr far ↦ inr (omega (arith, far, credit-wake w w.phase))
    ]

begun_small : (p : Phase) → begun p ≤ 1
begun_small looking = omega arith
begun_small asleep = omega arith
begun_small (running t) = omega arith

-- Where a thread sleeps only over an empty list, whatever is pushed in between and however often it
-- wakes for no reason: once the thread of a worker has made 2 * (k + 1) steps of its own, it has
-- finished the task that was the `k`-th of those waiting, as the `k`-th after those finished before.
pub task_is_run :
    {n : ℕ} {w w' : Worker} {ts : List Task} (k : ℕ) (task : Task)
    → IsRight w
    → Moves n w ts w'
    → get_elem? (pending w) k ≡ some task
    → 2 * (k + 1) ≤ n
    → get_elem? w'.ran (length w.ran + k) ≡ some task
task_is_run {n = n} {w = w} {w' = w'} {ts = ts} k task v m e h =
    sym (get_elem?-append_left w'.ran (pending w') (length w.ran + k) far)
    ∙ ap (λ us. get_elem? us (length w.ran + k)) (Moves-all_tasks m)
    ∙ get_elem?-append_left (all_tasks w) ts (length w.ran + k) (omega (arith, size, within))
    ∙ get_elem?-append_right w.ran (pending w) k
    ∙ e
  where
    within : k < length (pending w)
    within = get_elem?-within (pending w) k task e

    size : length (all_tasks w) ≡ length w.ran + length (pending w)
    size = length-append w.ran (pending w)

    far : length w.ran + k < length w'.ran
    far = elim (Moves-credit (length w.ran + (k + 1)) m v (omega (arith, size, within))) [
      | inl enough ↦ omega (arith, enough, begun_small w'.phase)
      | inr enough ↦ omega (arith, enough, h, begun_small w'.phase)
    ]
