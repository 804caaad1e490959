-- ===== src/MemCache/FreeLists.antt =====
-- The abstract view of the allocator: for each list index the blocks that are free, and what
-- `allocate`, `refill` and `deallocate` do to them.
use nf_server.Prelude.{
  ℕ, ◌+◌, ◌≤◌, ◌<◌, ◌≡◌, ◌≢◌, true, false, List, arith, has, Distinct, update, inl, inr, ◌⊎◌, ◌==◌,
  Bool-cases,
}
use nf_server.MemCache.{null, Pool}
use nf_server.MemCache.Chains.{Chain, frame}

-- The free blocks by list index.
abbrev pub Free : Type 0
Free = ℕ → List ℕ

-- Every free list is a chain of its blocks, and no block is free twice.
pub record Holds (p : Pool) (free : Free) : Type 0 where
  pub chains : (k : ℕ) → Chain p.link (p.free_list k) (free k)
  pub distinct : (k : ℕ) → Distinct (free k)
  pub apart : (a j k : ℕ) → has a (free j) ≡ true → has a (free k) ≡ true → j ≡ k

-- The block at `a` is on no free list.
abbrev pub IsUsed : Free → ℕ → Type 0
IsUsed free a = (k : ℕ) → has a (free k) ≡ false

-- `malloc` returned a chunk of `len` bytes at `got` that meets no free block.
abbrev pub IsFresh : Free → ℕ → ℕ → Type 0
IsFresh free got len =
    (got ≢ null) × ((a k : ℕ) → has a (free k) ≡ true → (a < got) ⊎ (got + len ≤ a))

-- A list of `free` gives way to `xs`, at a new head in a memory that has changed elsewhere at most.
pub Holds-update :
    {p q : Pool} {free : Free} (i : ℕ) (xs : List ℕ)
    → Holds p free
    → ((a k : ℕ) → k ≢ i → has a (free k) ≡ true → q.link a ≡ p.link a)
    → ((k : ℕ) → k ≢ i → q.free_list k ≡ p.free_list k)
    → Chain q.link (q.free_list i) xs
    → Distinct xs
    → ((a k : ℕ) → k ≢ i → has a xs ≡ true → has a (free k) ≡ true → ⊥)
    → Holds q (update free i xs)
Holds-update {p} {q} {free} i xs h same heads chain dist fresh = record {
  chains = λ k. chain_at k (Bool-cases (k == i));
  distinct = λ k. distinct_at k (Bool-cases (k == i));
  apart = λ a j k. apart_at a j k (Bool-cases (j == i)) (Bool-cases (k == i));
}
  where
    chain_at :
        (k : ℕ)
        → ((k == i) ≡ true) ⊎ ((k == i) ≡ false)
        → Chain q.link (q.free_list k) (update free i xs k)
    chain_at k (inl e) = let e' : k ≡ i = ground arith in rw (e, e') chain
    chain_at k (inr ne) =
        let ne' : k ≢ i = ground arith in
        rw (ne, heads k ne')
          (frame p.link q.link (p.free_list k) (free k) (λ a m. same a k ne' m) (h.chains k))

    distinct_at : (k : ℕ) → ((k == i) ≡ true) ⊎ ((k == i) ≡ false) → Distinct (update free i xs k)
    distinct_at k (inl e) = rw e dist
    distinct_at k (inr ne) = rw ne (h.distinct k)

    apart_at :
        (a j k : ℕ)
        → ((j == i) ≡ true) ⊎ ((j == i) ≡ false)
        → ((k == i) ≡ true) ⊎ ((k == i) ≡ false)
        → has a (update free i xs j) ≡ true
        → has a (update free i xs k) ≡ true
        → j ≡ k
    apart_at a j k (inl e) (inl e') m m' = ground arith
    apart_at a j k (inl e) (inr ne) m m' =
        absurd (fresh a k (ground arith) (rw e at m) (rw ne at m'))
    apart_at a j k (inr ne) (inl e) m m' =
        absurd (fresh a j (ground arith) (rw e at m') (rw ne at m))
    apart_at a j k (inr ne) (inr ne') m m' = h.apart a j k (rw ne at m) (rw ne' at m')
