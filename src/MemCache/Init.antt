-- ===== src/MemCache/Init.antt =====
-- `Allocate::init`: after it every free list holds the 20 blocks of its chunk.
use mathlib.Core.Path.{fun_ext, subst}
use nf_server.Prelude.{
  ℕ, zero, suc, ◌+◌, ◌*◌, ◌≤◌, ◌<◌, ◌≡◌, refl, ◌∙◌, ◌≢◌, true, some, List, [], arith, has, update,
  update_self, update_ne, inl, inr, ◌⊎◌, Bool-cases, beq_ne, ltb, if◌then◌else◌,
}
use nf_server.MemCache.{
  null, align, lists, chunk_node, Pool, returned, refill, init_list, init_lists, init,
  freelist_index, thread_nodes, clear_links,
}
use nf_server.MemCache.Chains.{
  frame, nodes, has-nodes, nodes-Distinct, thread_nodes-Chain, thread_nodes-outside,
}
use nf_server.MemCache.FreeLists.{Free, Holds, Holds-update, IsFresh}

-- The block size of a list.
abbrev size_of : ℕ → ℕ
size_of k = (k + 1) * align

-- The chunks that `malloc` returns for the lists `j` and `k` do not meet.
abbrev IsApart : (ℕ → ℕ) → ℕ → ℕ → Type 0
IsApart got j k =
    (got (size_of j) + chunk_node * size_of j ≤ got (size_of k))
    ⊎ (got (size_of k) + chunk_node * size_of k ≤ got (size_of j))

-- The blocks of a chunk for a list.
chunk : (ℕ → ℕ) → ℕ → List ℕ
chunk got k = nodes (got (size_of k)) (size_of k) chunk_node

-- The first `m` lists are full and the others empty.
pub filled : (ℕ → ℕ) → ℕ → Free
filled got m k = if ltb k m then chunk got k else []

freelist_index-size_of : (k : ℕ) → k < lists → freelist_index (size_of k) ≡ k
unfolding freelist_index
freelist_index-size_of k h = omega arith

-- The pool after a round of `init`.
abbrev started : Pool → ℕ → ℕ → Pool
started p got k = record {
  free_list = update (update p.free_list k (got + size_of k)) k got;
  link =
      update
        (thread_nodes 18 (got + size_of k) (size_of k)
          (clear_links got (chunk_node * size_of k) p.link))
        got (got + size_of k);
}

refill-returned :
    (got n : ℕ) (p : Pool)
    → n ≢ 0
    → got ≢ null
    → refill got n p
      ≡ returned got (record {
        free_list = update p.free_list (freelist_index n) (got + n);
        link = thread_nodes 18 (got + n) n (clear_links got (chunk_node * n) p.link);
      })
unfolding refill
refill-returned got n p hn hg = rw (beq_ne n 0 hn, beq_ne got null hg)

init_list-started :
    (got : ℕ → ℕ) (p : Pool) (k : ℕ)
    → k < lists
    → got (size_of k) ≢ null
    → init_list got (size_of k) p ≡ some (started p (got (size_of k)) k)
unfolding init_list
init_list-started got p k h ne =
    rw (refill-returned (got (size_of k)) (size_of k) p (omega arith) ne, init_list)
      (rw (freelist_index-size_of k h)
        (rw (update_self p.free_list k (got (size_of k) + size_of k)) refl))

init_list-Holds :
    (got : ℕ) {p : Pool} {free : Free} (k : ℕ)
    → Holds p free
    → IsFresh free got (chunk_node * size_of k)
    → Holds (started p got k) (update free k (nodes got (size_of k) chunk_node))
unfolding nodes
init_list-Holds got {p} {free} k h fresh =
    Holds-update k (nodes got s chunk_node) h (λ a j ne m. outside a (fresh.1 a j m))
      (λ j ne. ground arith)
      (
        update_self (update p.free_list k (got + s)) k got,
        fresh.0,
        rw update_self (
            frame threaded _ (got + s) (nodes (got + s) s 19) spare
              (thread_nodes-Chain 18 (got + s) s cleared (omega arith) (omega arith))),
      )
      (nodes-Distinct got s chunk_node (omega arith))
      (λ a j ne m m'. inside a (has-nodes a got s chunk_node m) (fresh.1 a j m'))
  where
    s : ℕ
    s = size_of k

    cleared : ℕ → ℕ
    cleared = clear_links got (chunk_node * s) p.link

    threaded : ℕ → ℕ
    threaded = thread_nodes 18 (got + s) s cleared

    inside :
        (a : ℕ)
        → (got ≤ a) × (a + s ≤ got + chunk_node * s)
        → (a < got) ⊎ (got + chunk_node * s ≤ a)
        → ⊥
    inside a r d = omega arith

    away : (a : ℕ) → (a < got) ⊎ (got + chunk_node * s ≤ a) → (a < got + s) ⊎ (got + s + 18 * s < a)
    away a d = omega arith

    outside : (a : ℕ) → (a < got) ⊎ (got + chunk_node * s ≤ a) → (started p got k).link a ≡ p.link a
    outside a d =
        update_ne threaded got (got + s) a (omega arith)
        ∙ thread_nodes-outside 18 (got + s) s cleared a (away a d)
        ∙ ground arith

    spare :
        (a : ℕ) → has a (nodes (got + s) s 19) ≡ true → update threaded got (got + s) a ≡ threaded a
    spare a m = update_ne threaded got (got + s) a (omega (arith, has-nodes a (got + s) s 19 m))

filled-zero : (got : ℕ → ℕ) (k : ℕ) → filled got 0 k ≡ []
unfolding filled
filled-zero got k = ground arith

module _ (got : ℕ → ℕ) (given : (k : ℕ) → k < lists → got (size_of k) ≢ null)
    (apart : (j k : ℕ) → j < k → k < lists → IsApart got j k) where
  filled-IsFresh :
      (m : ℕ) → m < lists → IsFresh (filled got m) (got (size_of m)) (chunk_node * size_of m)
  unfolding filled chunk
  filled-IsFresh m h = (
    given m h,
    λ a k e. elim (Bool-cases (ltb k m)) [
      | inl low ↦
          let lt : k < m = ground arith in
          let r = has-nodes a (got (size_of k)) (size_of k) chunk_node (rw low at e) in
          omega (arith, apart k m lt h)
      | inr high ↦ let bad : has a [] ≡ true = rw high at e in cc
    ],
  )

  filled-suc : (m : ℕ) → update (filled got m) m (chunk got m) ≡ filled got (suc m)
  unfolding filled
  filled-suc m = fun_ext (λ k. ground arith)

  init_lists-filled :
      (r m : ℕ) (p : Pool)
      → r + m ≡ lists
      → Holds p (filled got m)
      → (p' : Pool) × (init_lists r (size_of m) got p ≡ some p') × Holds p' (filled got lists)
  unfolding init_lists chunk
  init_lists-filled zero m p e h =
      (p, refl, subst (λ (j : ℕ). Holds p (filled got j)) (omega arith) h)
  init_lists-filled (suc r) m p e h =
      let (p', run, held) =
        init_lists-filled r (suc m) (started p (got (size_of m)) m) (omega arith) (
          rw (← filled-suc m)
            (init_list-Holds (got (size_of m)) m h (filled-IsFresh m (omega arith)))) in
      (
        p',
        rw (init_list-started got p m (omega arith) (given m (omega arith)), init_lists)
            (subst (λ (j : ℕ). init_lists r j got (started p (got (size_of m)) m) ≡ some p')
              (omega arith) run),
        held,
      )

  -- From empty lists, with a chunk for each size that `malloc` gives and no two of which meet, `init`
  -- leaves in each of the 16 lists the 20 blocks of its chunk, in address order.
  pub init_lem :
      (p : Pool)
      → ((k : ℕ) → p.free_list k ≡ null)
      → (p' : Pool) × (init got p ≡ some p') × Holds p' (filled got lists)
  unfolding init
  init_lem p empty =
      subst
        (λ (j : ℕ).
          (p' : Pool) × (init_lists lists j got p ≡ some p') × Holds p' (filled got lists))
        (omega arith) (init_lists-filled lists 0 p (omega arith) none_free)
    where
      none_free : Holds p (filled got 0)
      none_free = record {
        chains = λ k. rw (filled-zero got k) (empty k);
        distinct = λ k. rw (filled-zero got k) tt;
        apart = λ a j k m m'. let bad : has a [] ≡ true = rw (filled-zero got j) at m in cc;
      }
