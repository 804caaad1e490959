-- ===== src/ThreadManager.antt =====
-- commonn/ThreadManager.h and commonn/ThreadManager.cpp: the threads that `run` starts and `join` waits
-- for. `pthread_create` is a parameter: what its n-th call in a `run` gives, `none` where it fails.
use nf_server.Prelude.{
  ℕ, zero, suc, ◌+◌, ◌-◌, ◌^◌, ◌<◌, ◌≡◌, ◌⊎◌, refl, sym, ap, ◌∙◌, inl, inr, Option, none, some,
  List, [], ◌∷◌, ◌++◌, append_assoc, append-nil, arith, length, length-append,
}
use nf_server.Prelude.Int.{ℤ, pos, negsuc, success}
use nf_server.Timer.{to_int}

-- `size_t i < pnum` with an `int pnum`: a negative number of threads wraps.
abbrev to_size : ℤ → ℕ
to_size (pos n) = n
to_size (negsuc n) = 2 ^ 64 - suc n

-- The loop of `run` at `i` with `rounds` rounds left, on `_tids`.
run_loop : (ℕ → Option ℕ) → (i rounds : ℕ) → List ℕ → List ℕ
run_loop create i zero tids = tids
run_loop create i (suc rounds) tids = elim (create i) [
  | none ↦ tids
  | some pid ↦ run_loop create (i + 1) rounds (tids ++ (pid ∷ []))
]

-- `run`: the number that it returns, which is converted to `int`, and `_tids`.
unfoldable pub run : (ℕ → Option ℕ) → ℤ → List ℕ → ℤ × List ℕ
unfolding run_loop
run create pnum tids =
    let tids' = run_loop create 0 (to_size pnum) tids in (to_int (pos (length tids')), tids')

-- The loop of `join`: the calls of `pthread_join`.
join_loop : List ℕ → List ℕ
join_loop [] = []
join_loop (pid ∷ tids) = pid ∷ join_loop tids

-- `join`: what it returns, the threads that it waited for, and `_tids`.
unfoldable pub join : List ℕ → ℤ × List ℕ × List ℕ
unfolding join_loop
join tids = (success, join_loop tids, [])

join_loop-id : (tids : List ℕ) → join_loop tids ≡ tids
unfolding join_loop
join_loop-id [] = refl
join_loop-id (pid ∷ tids) = ap (λ (l : List ℕ). pid ∷ l) (join_loop-id tids)

-- The calls of `pthread_create` from the `i`-th on give these threads.
abbrev pub Creates : (ℕ → Option ℕ) → ℕ → List ℕ → Type 0
Creates create i [] = Unit {0}
Creates create i (pid ∷ pids) = (create i ≡ some pid) × Creates create (i + 1) pids

run_loop-Creates :
    (create : ℕ → Option ℕ) (i rounds : ℕ) (tids : List ℕ)
    → (pids : List ℕ) × (run_loop create i rounds tids ≡ tids ++ pids)
      × Creates create i pids
      × ((length pids ≡ rounds) ⊎ ((length pids < rounds) × (create (i + length pids) ≡ none)))
unfolding run_loop
run_loop-Creates create i zero tids = ([], sym (append-nil tids), tt, inl refl)
run_loop-Creates create i (suc rounds) tids =
    step (create i) refl (run_loop-Creates create (i + 1) rounds)
  where
    step :
        (o : Option ℕ)
        → create i ≡ o
        → ((tids' : List ℕ)
            → (pids : List ℕ) × (run_loop create (i + 1) rounds tids' ≡ tids' ++ pids)
              × Creates create (i + 1) pids
              × ((length pids ≡ rounds)
                  ⊎ ((length pids < rounds) × (create (i + 1 + length pids) ≡ none))))
        → (pids : List ℕ) × ((elim o as (λ x. List ℕ) [
          | none ↦ tids
          | some pid ↦ run_loop create (i + 1) rounds (tids ++ (pid ∷ []))
        ])
            ≡ tids ++ pids)
          × Creates create i pids
          × ((length pids ≡ suc rounds)
              ⊎ ((length pids < suc rounds) × (create (i + length pids) ≡ none)))
    step none e rest = (
      [],
      sym (append-nil tids),
      tt,
      inr (omega arith, ap create {x = i + 0} {y = i} (omega arith) ∙ e),
    )
    step (some pid) e rest =
        let (pids, threads, made, ends) = rest (tids ++ (pid ∷ [])) in
        (
          pid ∷ pids,
          threads ∙ append_assoc tids (pid ∷ []) pids,
          (e, made),
          elim ends [
            | inl all ↦ inl (omega (arith, all))
            | inr (less, failed) ↦ inr (
              omega (arith, less),
              ap create {x = i + suc (length pids)} {y = i + 1 + length pids} (omega arith)
                  ∙ failed,
            )
          ],
        )

-- `run` adds the threads of its calls of `pthread_create`, in their order, and returns the number of
-- all threads there are then, as an `int`; it stops after as many calls as asked for, where a negative
-- number is taken as an unsigned one, or at the first call that fails. A `join` then waits for each of
-- these threads once, in their order, and leaves none.
pub join-run :
    (create : ℕ → Option ℕ) (pnum : ℤ) (tids : List ℕ)
    → (pids : List ℕ) × (run create pnum tids
        ≡ (to_int (pos (length tids + length pids)), tids ++ pids))
      × Creates create 0 pids
      × ((length pids ≡ to_size pnum)
          ⊎ ((length pids < to_size pnum) × (create (length pids) ≡ none)))
      × (join (run create pnum tids).1 ≡ (success, tids ++ pids, []))
unfolding run join
join-run create pnum tids =
    let (pids, threads, made, ends) = run_loop-Creates create 0 (to_size pnum) tids in
    (
      pids,
      ap (λ (l : List ℕ). (to_int (pos (length l)), l)) threads
          ∙ ap (λ (k : ℕ). (to_int (pos k), tids ++ pids)) (length-append tids pids),
      made,
      elim ends [
        | inl all ↦ inl all
        | inr (less, failed) ↦
            inr (less, ap create {x = length pids} {y = 0 + length pids} (omega arith) ∙ failed)
      ],
      ap (λ (l : List ℕ). (success, join_loop l, [])) threads
          ∙ ap (λ (l : List ℕ). (success, l, [])) (join_loop-id (tids ++ pids)),
    )
