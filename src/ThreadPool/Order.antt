-- ===== src/ThreadPool/Order.antt =====
-- `AddTask` and `init`: which worker gets a task, and that each worker has its tasks in the order in
-- which they were added.
use nf_server.Prelude.{
  ℕ, zero, suc, ◌%◌, ◌<◌, ◌≡◌, ◌≢◌, refl, sym, ap, ◌∙◌, inl, inr, Bool, true, false, Bool-cases,
  Option, some, none, List, [], ◌∷◌, some_injective, ◌==◌, if◌then◌else◌, arith, get_elem?,
  get_elem?-set_self, get_elem?-set_ne, set, length,
}
use native.Mathlib.Nat.{mod-lt}
use nf_server.Prelude.Int.{pos, negsuc}
use nf_server.ThreadPool.{
  Task, Worker, live, Pool, execute, wake, push_task, array, index, Added, no_return, no_worker,
  push_at, add_at, add_task,
}
use nf_server.ThreadPool.Progress.{Moves, still, own, pushed, woken}

-- A pool of `n + 1` workers.
abbrev pub pool : ℕ → List Worker → Pool
pool n ws = record { worker_size = pos (suc n); worker_list = live ws }

abbrev pub with_worker : ℕ → Worker → Pool → Pool
with_worker i w p = record p { worker_list = live (set (array p.worker_list) i w) }

abbrev pub rouse : Worker → Worker
rouse w = record w { phase = wake w.phase }

-- What happens to a pool: tasks are added, and threads make steps or wake for no reason, in any order.
pub data Steps : Pool → List Task → Pool → Type 0 where
  start : {p : Pool} → Steps p [] p
  added :
      {p p' p'' : Pool} {ts : List Task} (task : Task)
      → add_task task p ≡ no_return p'
      → Steps p' ts p''
      → Steps p (task ∷ ts) p''
  moved :
      {p p' : Pool} {ts : List Task} (i : ℕ) (w : Worker)
      → get_elem? (array p.worker_list) i ≡ some w
      → Steps (with_worker i (execute w) p) ts p'
      → Steps p ts p'
  roused :
      {p p' : Pool} {ts : List Task} (i : ℕ) (w : Worker)
      → get_elem? (array p.worker_list) i ≡ some w
      → Steps (with_worker i (rouse w) p) ts p'
      → Steps p ts p'

-- Whether a task is for worker `i`.
abbrev pub selects : ℕ → ℕ → Task → Bool
selects n i task = elim (index task.idx (suc n)) [ none ↦ false | some j ↦ j == i ]

-- The tasks for worker `i`, in order.
unfoldable pub assigned : ℕ → ℕ → List Task → List Task
assigned n i [] = []
assigned n i (task ∷ ts) =
    let rest = assigned n i ts in if selects n i task then task ∷ rest else rest

add_at-result :
    (p p' : Pool) (o : Option (List Worker))
    → add_at p o ≡ no_return p'
    → (ws : List Worker) × (o ≡ some ws) × (record p { worker_list = live ws } ≡ p')
unfolding add_at
add_at-result p p' none e = absurd cc
add_at-result p p' (some ws) e = (ws, refl, cc)

push_at-result :
    (i : ℕ) (task : Task) (ws ws' : List Worker)
    → push_at i task ws ≡ some ws'
    → (w : Worker) × (get_elem? ws i ≡ some w) × (set ws i (push_task task w) ≡ ws')
unfolding push_at
push_at-result i task ws ws' e = join (get_elem? ws i) e
  where
    join :
        (o : Option Worker)
        → (elim o as (λ x. Option (List Worker)) [
          | none ↦ none
          | some w ↦ some (set ws i (push_task task w))
        ])
          ≡ some ws'
        → (w : Worker) × (o ≡ some w) × (set ws i (push_task task w) ≡ ws')
    join none e = absurd cc
    join (some w) e = (w, refl, cc)

add_task-result :
    (n : ℕ) (task : Task) (ws : List Worker) (p' : Pool)
    → add_task task (pool n ws) ≡ no_return p'
    → (i : ℕ) × (index task.idx (suc n) ≡ some i)
      × (w : Worker) × (get_elem? ws i ≡ some w)
      × (pool n (set ws i (push_task task w)) ≡ p')
unfolding add_task
add_task-result n task ws p' e = join (index task.idx (suc n)) e
  where
    join :
        (o : Option ℕ)
        → (elim o as (λ x. Added) [
          | none ↦ no_worker
          | some i ↦ add_at (pool n ws) (push_at i task ws)
        ])
          ≡ no_return p'
        → (i : ℕ) × (o ≡ some i)
          × (w : Worker) × (get_elem? ws i ≡ some w)
          × (pool n (set ws i (push_task task w)) ≡ p')
    join none e = absurd cc
    join (some i) e =
        let (ws', run, same) = add_at-result (pool n ws) p' (push_at i task ws) e in
        let (w, here, new) = push_at-result i task ws ws' run in
        (i, refl, w, here, ap (pool n) new ∙ same)

module _ (f : Worker → Worker) (ws : List Worker) (i j : ℕ) (w v : Worker) where
  changed :
      get_elem? ws i ≡ some w
      → get_elem? ws j ≡ some v
      → (j == i) ≡ true
      → get_elem? (set ws j (f v)) i ≡ some (f w)
  changed here there e =
      let same : j ≡ i = ground arith in
      let equal : v ≡ w = some_injective (sym there ∙ ap (get_elem? ws) same ∙ here) in
      ap (λ k. get_elem? (set ws j (f v)) k) (sym same)
      ∙ get_elem?-set_self ws j v (f v) there
      ∙ ap (λ u. some (f u)) equal

  unchanged : get_elem? ws i ≡ some w → (j == i) ≡ false → get_elem? (set ws j (f v)) i ≡ some w
  unchanged here e =
      let apart : j ≢ i = λ same. absurd (ground (arith, same)) in
      get_elem?-set_ne ws j i (f v) apart ∙ here

selects-eq :
    (n i j : ℕ) (task : Task) → index task.idx (suc n) ≡ some j → selects n i task ≡ (j == i)
selects-eq n i j task e = ap (λ o. elim o as (λ x. Bool) [ none ↦ false | some j ↦ j == i ]) e

get_elem?-below :
    (ws : List Worker) (i : ℕ) → i < length ws → (w : Worker) × (get_elem? ws i ≡ some w)
get_elem?-below [] i h = absurd (omega arith)
get_elem?-below (w ∷ ws) zero h = (w, refl)
get_elem?-below (w ∷ ws) (suc i) h = get_elem?-below ws i (omega arith)

-- What happened to worker `i` while the pool went to `p'`.
abbrev pub History : ℕ → Worker → List Task → Pool → Type 0
History i w ts p' =
    (w' : Worker) × (m : ℕ) × (get_elem? (array p'.worker_list) i ≡ some w') × Moves m w ts w'

-- A worker's share of what happens to the pool: the steps of its thread, and the pushes of its tasks.
pub Steps-Moves :
    {p p' : Pool} {ts : List Task} (n i : ℕ) (ws : List Worker) (w : Worker)
    → p ≡ pool n ws
    → Steps p ts p'
    → get_elem? ws i ≡ some w
    → History i w (assigned n i ts) p'
unfolding assigned
Steps-Moves n i ws w e start here =
    (w, 0, ap (λ (q : Pool). get_elem? (array q.worker_list) i) e ∙ here, still)
Steps-Moves {p = p} {p' = p'} n i ws w e (added {p' = q} {ts = ts} task run s) here =
    let (j, select, v, there, new) =
      add_task-result n task ws q (ap (add_task task) (sym e) ∙ run) in
    let choice = selects-eq n i j task select in
    elim (Bool-cases (j == i)) [
      | inl mine ↦
          let (w', m, last, moves) =
            Steps-Moves n i (set ws j (push_task task v)) (push_task task w) (sym new) s
              (changed (push_task task) ws i j w v here there mine) in
          rw (choice, mine) (w', m, last, pushed task moves)
      | inr other ↦
          rw (choice, other)
            (Steps-Moves n i (set ws j (push_task task v)) w (sym new) s
              (unchanged (push_task task) ws i j w v here other))
    ]
Steps-Moves {p' = p'} {ts = ts} n i ws w e (moved j v at s) here =
    let there : get_elem? ws j ≡ some v =
      ap (λ (q : Pool). get_elem? (array q.worker_list) j) (sym e) ∙ at in
    let new = ap (with_worker j (execute v)) e in
    elim (Bool-cases (j == i)) [
      | inl mine ↦
          let (w', m, last, moves) =
            Steps-Moves n i (set ws j (execute v)) (execute w) new s
              (changed execute ws i j w v here there mine) in
          (w', suc m, last, own moves)
      | inr other ↦
          Steps-Moves n i (set ws j (execute v)) w new s (unchanged execute ws i j w v here other)
    ]
Steps-Moves n i ws w e (roused j v at s) here =
    let there : get_elem? ws j ≡ some v =
      ap (λ (q : Pool). get_elem? (array q.worker_list) j) (sym e) ∙ at in
    let new = ap (with_worker j (rouse v)) e in
    elim (Bool-cases (j == i)) [
      | inl mine ↦
          let (w', m, last, moves) =
            Steps-Moves n i (set ws j (rouse v)) (rouse w) new s
              (changed rouse ws i j w v here there mine) in
          (w', m, last, woken moves)
      | inr other ↦
          Steps-Moves n i (set ws j (rouse v)) w new s (unchanged rouse ws i j w v here other)
    ]

-- With a worker at each index, `AddTask` pushes a task whose `idx` is not negative to the worker at the
-- remainder, and ends without returning a value; where `idx` is negative and no multiple of the number of
-- workers, it goes to a worker before the array.
add_task_lem :
    (n m k task : ℕ) (ws : List Worker)
    → length ws ≡ suc n
    → suc k % suc n ≢ 0
    → ((w : Worker) × (get_elem? ws (m % suc n) ≡ some w)
        × (add_task (record { idx = pos m; task = task }) (pool n ws)
            ≡ no_return
                (pool n (set ws (m % suc n) (push_task (record { idx = pos m; task = task }) w)))))
      × (add_task (record { idx = negsuc k; task = task }) (pool n ws) ≡ no_worker)
unfolding add_task push_at add_at
add_task_lem n m k task ws size h =
    let i = m % suc n in
    let (w, here) =
      get_elem?-below ws i (omega (arith, size, mod-lt m {m = suc n} (omega arith))) in
    ((w, here, rw (add_task, push_at, here) refl), before (suc k % suc n) h)
  where
    before :
        (r : ℕ)
        → r ≢ 0
        → (elim (elim r as (λ x. Option ℕ) [ zero ↦ some 0 | suc i ↦ none ]) as (λ x. Added) [
          | none ↦ no_worker
          | some i ↦ add_at (pool n ws) (push_at i (record { idx = negsuc k; task = task }) ws)
        ])
          ≡ no_worker
    before zero h = absurd (h refl)
    before (suc r) h = refl
