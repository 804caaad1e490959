-- ===== src/MemCache/Chains.antt =====
-- Linked chains of free blocks, and the chain that the loop of `refill` makes of a chunk.
use nf_server.Prelude.{
  ℕ, zero, suc, ◌+◌, ◌*◌, ◌≤◌, ◌<◌, ◌≡◌, refl, ◌∙◌, ◌≢◌, true, List, [], ◌∷◌, arith, has, Distinct,
  update, update_self, not_has, Bool-cases, ◌==◌, ◌⊎◌, inl, inr,
}
use nf_server.MemCache.{null, thread_nodes}

-- From `head` the links lead through the blocks `xs` to null.
abbrev pub Chain : (ℕ → ℕ) → ℕ → List ℕ → Type 0
Chain link head [] = head ≡ null
Chain link head (x ∷ xs) = (head ≡ x) × (x ≢ null) × Chain link (link x) xs

pub frame :
    (f g : ℕ → ℕ) (head : ℕ) (xs : List ℕ)
    → ((a : ℕ) → has a xs ≡ true → g a ≡ f a)
    → Chain f head xs
    → Chain g head xs
frame f g head [] same c = c
frame f g head (x ∷ xs) same (e, ne, c) =
    (e, ne, rw (same x (ground arith)) (frame f g (f x) xs (λ a h. same a (ground arith)) c))

-- `k` blocks of `n` bytes from `a` on.
unfoldable pub nodes : ℕ → ℕ → ℕ → List ℕ
nodes a n zero = []
nodes a n (suc k) = a ∷ nodes (a + n) n k

pub has-nodes : (b a n k : ℕ) → has b (nodes a n k) ≡ true → (a ≤ b) × (b + n ≤ a + k * n)
unfolding nodes
has-nodes b a n zero h = cc
has-nodes b a n (suc k) h = elim (Bool-cases (b == a)) [
  | inl e ↦ let e' : b ≡ a = ground arith in (omega arith, omega arith)
  | inr ne ↦ let (lo, hi) = has-nodes b (a + n) n k (ground arith) in (omega arith, omega arith)
]

-- Blocks of a positive size are different.
pub nodes-Distinct : (a n k : ℕ) → 0 < n → Distinct (nodes a n k)
unfolding nodes
nodes-Distinct a n zero h = tt
nodes-Distinct a n (suc k) h = (
  not_has a (nodes (a + n) n k) (λ bad. omega (arith, has-nodes a (a + n) n k bad)),
  nodes-Distinct (a + n) n k h,
)

-- The loop writes only from its first block on.
thread_nodes-below : (k a n : ℕ) (link : ℕ → ℕ) (b : ℕ) → b < a → thread_nodes k a n link b ≡ link b
unfolding thread_nodes
thread_nodes-below zero a n link b h = ground arith
thread_nodes-below (suc k) a n link b h =
    thread_nodes-below k (a + n) n (update link a (a + n)) b (omega arith) ∙ ground arith

thread_nodes-above :
    (k a n : ℕ) (link : ℕ → ℕ) (b : ℕ) → a + k * n < b → thread_nodes k a n link b ≡ link b
unfolding thread_nodes
thread_nodes-above zero a n link b h = ground arith
thread_nodes-above (suc k) a n link b h =
    thread_nodes-above k (a + n) n (update link a (a + n)) b (omega arith) ∙ ground arith

pub thread_nodes-outside :
    (k a n : ℕ) (link : ℕ → ℕ) (b : ℕ)
    → (b < a) ⊎ (a + k * n < b)
    → thread_nodes k a n link b ≡ link b
thread_nodes-outside k a n link b (inl h) = thread_nodes-below k a n link b h
thread_nodes-outside k a n link b (inr h) = thread_nodes-above k a n link b h

-- The loop chains its blocks.
pub thread_nodes-Chain :
    (k a n : ℕ) (link : ℕ → ℕ)
    → 0 < a
    → 0 < n
    → Chain (thread_nodes k a n link) a (nodes a n (suc k))
unfolding thread_nodes nodes
thread_nodes-Chain zero a n link pa pn = (refl, omega arith, ground arith)
thread_nodes-Chain (suc k) a n link pa pn = (
  refl,
  omega arith,
  rw (thread_nodes-below k (a + n) n (update link a (a + n)) a (omega arith), update_self)
      (thread_nodes-Chain k (a + n) n (update link a (a + n)) (omega arith) pn),
)
