-- ===== src/ThreadPool/Start.antt =====
-- `init`, and what a pool has done since.
use nf_server.Prelude.{
  ℕ, zero, suc, ◌+◌, ◌≤◌, ◌<◌, ◌≡◌, refl, sym, ap, ◌∙◌, subst, Option, some, none, List, [], ◌∷◌,
  some_injective, ◌++◌, arith, get_elem?,
}
use nf_server.Prelude.Int.{ℤ, pos, negsuc, success}
use nf_server.ThreadPool.{
  Task, Worker, Pool, new_pool, new_worker, set_buff, started, started_with, init, array,
}
use nf_server.ThreadPool.Progress.{IsRight, all_tasks, pending, Moves-all_tasks, Moves-IsRight}
use nf_server.ThreadPool.Order.{pool, Steps, assigned, Steps-Moves}

-- A worker that has had nothing to do yet.
record IsIdle (w : Worker) : Type 0 where
  pub nothing : all_tasks w ≡ []
  pub right : IsRight w

new_worker-IsIdle : (i : ℕ) → IsIdle (record new_worker { thread_idx = i })
new_worker-IsIdle i = record {
  nothing = refl;
  right = record { awake = λ e. refl; counted = refl };
}

-- A worker at each index below `k`.
abbrev AreIdle : ℕ → List Worker → Type 0
AreIdle k ws = (j : ℕ) → j < k → (w : Worker) × (get_elem? ws j ≡ some w) × IsIdle w

started-AreIdle : (i k : ℕ) → AreIdle k (started i k)
unfolding started
started-AreIdle i zero j h = absurd (omega arith)
started-AreIdle i (suc k) zero h = (_, refl, new_worker-IsIdle i)
started-AreIdle i (suc k) (suc j) h = started-AreIdle (i + 1) k j (omega arith)

idle_cons :
    (w : Worker) (ws : List Worker) (k : ℕ) → IsIdle w → AreIdle k ws → AreIdle (suc k) (w ∷ ws)
idle_cons w ws k one rest zero h = (w, refl, one)
idle_cons w ws k one rest (suc j) h = rest j (omega arith)

set_buff-IsIdle :
    (got : Option (List ℕ)) (size i : ℕ) (w : Worker)
    → set_buff got size (record new_worker { thread_idx = i }) ≡ some w
    → IsIdle w
unfolding set_buff
set_buff-IsIdle none size i w e = absurd cc
set_buff-IsIdle (some block) size i w e =
    subst (λ v. IsIdle v) (some_injective e)
      (record { nothing = refl; right = record { awake = λ e. refl; counted = refl } })

started_with-AreIdle :
    (malloc : ℕ → Option (List ℕ)) (size i k : ℕ) (ws : List Worker)
    → started_with malloc size i k ≡ some ws
    → AreIdle k ws
unfolding started_with
started_with-AreIdle malloc size i zero ws e = λ j h. absurd (omega arith)
started_with-AreIdle malloc size i (suc k) ws e =
    first (set_buff (malloc i) size (record new_worker { thread_idx = i }))
      (started_with malloc size (i + 1) k) (set_buff-IsIdle (malloc i) size i)
      (started_with-AreIdle malloc size (i + 1) k) e
  where
    first :
        (o : Option Worker) (o' : Option (List Worker))
        → ((w : Worker) → o ≡ some w → IsIdle w)
        → ((vs : List Worker) → o' ≡ some vs → AreIdle k vs)
        → (elim o as (λ x. Option (List Worker)) [
          | none ↦ none
          | some w ↦ elim o' as (λ x. Option (List Worker)) [
            | none ↦ none
            | some vs ↦ some (w ∷ vs)
          ]
        ])
          ≡ some ws
        → AreIdle (suc k) ws
    first none o' one rest e = absurd cc
    first (some w) none one rest e = absurd cc
    first (some w) (some vs) one rest e =
        subst (AreIdle (suc k)) (some_injective e) (idle_cons w vs k (one w refl) (rest vs refl))

result_pool :
    (a b : ℤ) (x y : Pool) → ◌≡◌ {A = Option (ℤ × Pool)} (some (a, x)) (some (b, y)) → y ≡ x
result_pool a b x y e = sym (ap (λ (q : ℤ × Pool). q.1) (some_injective e))

-- The pool that `init` leaves.
init-workers :
    (malloc : ℕ → Option (List ℕ)) (n : ℕ) (buff_size : ℤ) (p : Pool)
    → init malloc (pos (suc n)) buff_size new_pool ≡ some (success, p)
    → (ws : List Worker) × (p ≡ pool n ws) × AreIdle (suc n) ws
unfolding init
init-workers malloc n (negsuc m) p e =
    (started 0 (suc n), result_pool _ _ _ _ e, started-AreIdle 0 (suc n))
init-workers malloc n (pos zero) p e =
    (started 0 (suc n), result_pool _ _ _ _ e, started-AreIdle 0 (suc n))
init-workers malloc n (pos (suc m)) p e =
    join (started_with malloc (suc m) 0 (suc n)) (started_with-AreIdle malloc (suc m) 0 (suc n)) e
  where
    join :
        (o : Option (List Worker))
        → ((ws : List Worker) → o ≡ some ws → AreIdle (suc n) ws)
        → (elim o as (λ x. Option (ℤ × Pool)) [ none ↦ none | some ws ↦ some (success, pool n ws) ])
          ≡ some (success, p)
        → (ws : List Worker) × (p ≡ pool n ws) × AreIdle (suc n) ws
    join none idle e = absurd cc
    join (some ws) idle e = (ws, result_pool _ _ _ _ e, idle ws refl)

-- After `init` for `n + 1` workers has succeeded, with or without buffers, and tasks were added and
-- threads made steps in any order: the tasks that worker `i` has finished, the one it runs and those in
-- its list are, in this order, exactly the added tasks whose index selects it, in the order in which
-- they were added; its thread sleeps only over an empty list, and its count is right.
pub add_task-IsInOrder :
    {p p' : Pool} {ts : List Task} (malloc : ℕ → Option (List ℕ)) (n i : ℕ) (buff_size : ℤ)
    → init malloc (pos (suc n)) buff_size new_pool ≡ some (success, p)
    → Steps p ts p'
    → i ≤ n
    → (w : Worker) × (get_elem? (array p'.worker_list) i ≡ some w)
      × (w.ran ++ pending w ≡ assigned n i ts)
      × IsRight w
add_task-IsInOrder {ts = ts} malloc n i buff_size e s h =
    let (ws, form, idle) = init-workers malloc n buff_size _ e in
    let (w, here, fresh) = idle i (omega arith) in
    let (w', m, there, moves) = Steps-Moves n i ws w form s here in
    (
      w',
      there,
      Moves-all_tasks moves ∙ ap (λ us. us ++ assigned n i ts) fresh.nothing,
      Moves-IsRight moves fresh.right,
    )
