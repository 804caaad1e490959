-- ===== src/MemCache/Blocks.antt =====
-- The operations of the allocator on the abstract view: `deallocate`, and `allocate` on a list with
-- a free block and on an empty one.
use nf_server.Prelude.{
  ℕ, ◌+◌, ◌-◌, ◌*◌, ◌≤◌, ◌<◌, ◌≡◌, refl, sym, ap, ◌∙◌, ◌≢◌, true, false, List, [], ◌∷◌, arith, has,
  Distinct, update, update_self, update_ne, ne_of_has, not_has, inl, inr, ◌⊎◌, ◌==◌, Bool-cases,
  beq_ne, ltb,
}
use nf_server.MemCache.{
  null, max_bytes, chunk_node, Pool, returned, allocate, deallocate, refill, round_up,
  freelist_index, thread_nodes, clear_links,
}
use nf_server.MemCache.Sizes.{freelist_index_lem}
use nf_server.MemCache.Chains.{
  Chain, frame, nodes, has-nodes, nodes-Distinct, thread_nodes-Chain, thread_nodes-outside,
}
use nf_server.MemCache.FreeLists.{Free, Holds, Holds-update, IsUsed, IsFresh}

-- What a request of 1 to MAX_BYTES bytes comes to in the tests of the code.
module _ (n : ℕ) (pn : 0 < n) (hn : n ≤ max_bytes) where
  index_ok : freelist_index (round_up n) ≡ freelist_index n
  index_ok = (freelist_index_lem n pn hn).2

  size_ok : ltb max_bytes (round_up n) ≡ false
  size_ok = ground (arith, freelist_index_lem n pn hn)

  size_pos : 0 < round_up n
  size_pos = omega (arith, freelist_index_lem n pn hn)

deallocate-small :
    (p : Pool) (q n : ℕ)
    → q ≢ null
    → 0 < n
    → n ≤ max_bytes
    → deallocate q n p ≡ record {
      free_list = update p.free_list (freelist_index n) q;
      link = update p.link q (p.free_list (freelist_index n));
    }
unfolding deallocate
deallocate-small p q n hq pn hn =
    rw (beq_ne n 0 (omega arith), beq_ne q null hq, size_ok n pn hn, index_ok n pn hn)

-- Giving back a used block of 1 to MAX_BYTES bytes puts it at the front of the list of its size and
-- leaves the other lists as they are.
pub deallocate_lem :
    {p : Pool} {free : Free} (q n : ℕ)
    → Holds p free
    → q ≢ null
    → 0 < n
    → n ≤ max_bytes
    → IsUsed free q
    → Holds (deallocate q n p) (update free (freelist_index n) (q ∷ free (freelist_index n)))
deallocate_lem {p} {free} q n h hq pn hn used = rw (deallocate-small p q n hq pn hn) (
    Holds-update i (q ∷ free i) h (λ a k ne m. same a k m) (λ k ne. update_ne p.free_list i q k ne)
      (
        update_self p.free_list i q,
        hq,
        rw update_self (frame p.link _ (p.free_list i) (free i) (λ a m. same a i m) (h.chains i)),
      )
      (used i, h.distinct i) (λ a k ne m m'. clash a k ne (Bool-cases (a == q)) m m'))
  where
    i : ℕ
    i = freelist_index n

    clash :
        (a k : ℕ)
        → k ≢ i
        → ((a == q) ≡ true) ⊎ ((a == q) ≡ false)
        → has a (q ∷ free i) ≡ true
        → has a (free k) ≡ true
        → ⊥
    clash a k ne (inl e) m m' = ne_of_has a q (free k) m' (used k) (ground arith)
    clash a k ne (inr ne') m m' = ne (h.apart a k i m' (rw ne' at m))

    same : (a k : ℕ) → has a (free k) ≡ true → update p.link q (p.free_list i) a ≡ p.link a
    same a k m = update_ne p.link q (p.free_list i) a (ne_of_has a q (free k) m (used k))

IsUsed-update :
    (free : Free) (x i : ℕ) (xs : List ℕ)
    → has x xs ≡ false
    → ((k : ℕ) → k ≢ i → has x (free k) ≡ false)
    → IsUsed (update free i xs) x
IsUsed-update free x i xs out others k = elim (Bool-cases (k == i)) [
  | inl e ↦ rw e out
  | inr ne ↦ rw ne (others k (ground arith))
]

allocate-pop :
    (got : ℕ) (p : Pool) (n : ℕ)
    → 0 < n
    → n ≤ max_bytes
    → p.free_list (freelist_index n) ≢ null
    → allocate got n p
      ≡ returned (p.free_list (freelist_index n)) (record p {
        free_list = update p.free_list (freelist_index n) (p.link (p.free_list (freelist_index n)));
      })
unfolding allocate
allocate-pop got p n pn hn hd = rw (
  index_ok n pn hn,
  beq_ne n 0 (omega arith),
  size_ok n pn hn,
  beq_ne (p.free_list (freelist_index n)) null hd,
)

-- A request of 1 to MAX_BYTES bytes whose list is not empty takes the first block off that list,
-- leaves the others as they are, and that block is free no more.
allocate_lem :
    (got : ℕ) {p : Pool} {free : Free} (n x : ℕ) (xs : List ℕ)
    → Holds p free
    → 0 < n
    → n ≤ max_bytes
    → free (freelist_index n) ≡ x ∷ xs
    → (p' : Pool) × (allocate got n p ≡ returned x p')
      × Holds p' (update free (freelist_index n) xs)
      × IsUsed (update free (freelist_index n) xs) x
allocate_lem got {p} {free} n x xs h pn hn e = (
  record p { free_list = update p.free_list i (p.link x) },
  allocate-pop got p n pn hn (λ z. chain.1 (sym head ∙ z))
      ∙ ap (λ (y : ℕ). returned y (record p { free_list = update p.free_list i (p.link y) })) head,
  Holds-update i xs h (λ a k ne m. refl) (λ k ne. update_ne p.free_list i (p.link x) k ne)
      (rw update_self chain.2) dist.1 (λ a k ne m m'. ne (h.apart a k i m' (rw e (ground arith)))),
  IsUsed-update free x i xs dist.0
      (λ k ne. not_has x (free k) (λ bad. ne (h.apart x k i bad (rw e (ground arith))))),
)
  where
    i : ℕ
    i = freelist_index n

    chain : Chain p.link (p.free_list i) (x ∷ xs)
    chain = rw e at (h.chains i)

    dist : Distinct (x ∷ xs)
    dist = rw e at (h.distinct i)

    head : p.free_list i ≡ x
    head = chain.0

-- The pool after `refill` with the chunk at `got`.
abbrev refilled : Pool → ℕ → ℕ → ℕ → Pool
refilled p got i s = record {
  free_list = update p.free_list i (got + s);
  link = thread_nodes 18 (got + s) s (clear_links got (chunk_node * s) p.link);
}

allocate-refill :
    (got : ℕ) (p : Pool) (n : ℕ)
    → 0 < n
    → n ≤ max_bytes
    → p.free_list (freelist_index n) ≡ null
    → got ≢ null
    → allocate got n p ≡ returned got (refilled p got (freelist_index n) (round_up n))
unfolding allocate refill
allocate-refill got p n pn hn e hg = rw (
  index_ok n pn hn,
  beq_ne n 0 (omega arith),
  size_ok n pn hn,
  e,
  beq_ne (round_up n) 0 (omega (arith, size_pos n pn hn)),
  beq_ne got null hg,
)

-- A request of 1 to MAX_BYTES bytes whose list is empty gets the first of 20 blocks of the rounded
-- size cut from a new chunk, and the other 19 become that list, in address order.
allocate_expand :
    (got : ℕ) {p : Pool} {free : Free} (n : ℕ)
    → Holds p free
    → 0 < n
    → n ≤ max_bytes
    → free (freelist_index n) ≡ []
    → IsFresh free got (chunk_node * round_up n)
    → let rest = nodes (got + round_up n) (round_up n) (chunk_node - 1) in
      (p' : Pool) × (allocate got n p ≡ returned got p')
      × Holds p' (update free (freelist_index n) rest)
      × IsUsed (update free (freelist_index n) rest) got
allocate_expand got {p} {free} n h pn hn e fresh = (
  refilled p got i s,
  allocate-refill got p n pn hn empty fresh.0,
  Holds-update i rest h (λ a k ne m. outside a k m (fresh.1 a k m))
      (λ k ne. update_ne p.free_list i (got + s) k ne)
      (rw update_self (
        thread_nodes-Chain 18 (got + s) s (clear_links got (chunk_node * s) p.link)
          (omega (arith, size_pos n pn hn)) (size_pos n pn hn)))
      (nodes-Distinct (got + s) s 19 (size_pos n pn hn))
      (λ a k ne m m'. inside a k m' (has-nodes a (got + s) s 19 m)),
  IsUsed-update free got i rest
      (not_has got rest (λ m. omega (arith, has-nodes got (got + s) s 19 m, size_pos n pn hn)))
      (λ k ne. not_has got (free k) (λ m. clash (fresh.1 got k m))),
)
  where
    i : ℕ
    i = freelist_index n

    s : ℕ
    s = round_up n

    rest : List ℕ
    rest = nodes (got + s) s (chunk_node - 1)

    empty : p.free_list i ≡ null
    empty = rw e at (h.chains i)

    clash : (got < got) ⊎ (got + chunk_node * s ≤ got) → ⊥
    clash d = omega (arith, size_pos n pn hn)

    inside : (a k : ℕ) → has a (free k) ≡ true → (got + s ≤ a) × (a + s ≤ got + s + 19 * s) → ⊥
    inside a k m r = omega (arith, fresh.1 a k m, size_pos n pn hn)

    outside :
        (a k : ℕ)
        → has a (free k) ≡ true
        → (a < got) ⊎ (got + chunk_node * s ≤ a)
        → thread_nodes 18 (got + s) s (clear_links got (chunk_node * s) p.link) a ≡ p.link a
    outside a k m (inl lo) =
        thread_nodes-outside 18 (got + s) s _ a (inl (omega arith)) ∙ ground arith
    outside a k m (inr hi) =
        thread_nodes-outside 18 (got + s) s _ a (inr (omega (arith, size_pos n pn hn)))
        ∙ ground arith

-- A block that is given back is the next one that a request of that size gets, and the heads of all
-- lists are then what they were.
allocate-deallocate :
    (got : ℕ) (p : Pool) (q n : ℕ)
    → q ≢ null
    → 0 < n
    → n ≤ max_bytes
    → (p' : Pool) × (allocate got n (deallocate q n p) ≡ returned q p')
      × ((k : ℕ) → p'.free_list k ≡ p.free_list k)
allocate-deallocate got p q n hq pn hn = (
  record {
    free_list = update (update p.free_list i q) i (p.free_list i);
    link = update p.link q (p.free_list i);
  },
  rw (deallocate-small p q n hq pn hn) (
      allocate-pop got given n pn hn (λ z. hq (sym (update_self p.free_list i q) ∙ z))
      ∙ ground (arith, update_self p.free_list i q, update_self p.link q (p.free_list i))),
  λ k. ground arith,
)
  where
    i : ℕ
    i = freelist_index n

    given : Pool
    given = record { free_list = update p.free_list i q; link = update p.link q (p.free_list i) }
