-- ===== src/MemCache/Sizes.antt =====
-- The arithmetic of block sizes: `ROUND_UP` and `FREELIST_INDEX`.
use nf_server.Prelude.{ℕ, ◌+◌, ◌-◌, ◌*◌, ◌%◌, ◌^◌, ◌≤◌, ◌<◌, ◌≡◌, arith}
use nf_server.MemCache.{align, max_bytes, lists, freelist_index, round_up}

-- Up to the largest multiple of ALIGN that a `size_t` holds, `ROUND_UP` gives the least multiple of
-- ALIGN that is not below the request.
pub round_up_bounds :
    (n : ℕ)
    → n ≤ 2 ^ 64 - align
    → (n ≤ round_up n) × (round_up n < n + align) × (round_up n % align ≡ 0)
unfolding round_up
round_up_bounds n h = (omega arith, omega arith, omega arith)

-- For the 255 sizes above that multiple the sum wraps: `ROUND_UP` gives 0, and `freelist_index` of that
-- is the largest `size_t`.
round_up_wraps :
    (n : ℕ)
    → n < 2 ^ 64
    → 2 ^ 64 - align < n
    → (round_up n ≡ 0) × (freelist_index (round_up n) ≡ 2 ^ 64 - 1)
unfolding round_up freelist_index
round_up_wraps n h large = (omega arith, omega arith)

-- A request of 1 to MAX_BYTES bytes has a list, whose blocks are of the rounded size, and the rounded
-- size has the same one.
pub freelist_index_lem :
    (n : ℕ)
    → 0 < n
    → n ≤ max_bytes
    → (freelist_index n < lists)
      × ((freelist_index n + 1) * align ≡ round_up n)
      × (freelist_index (round_up n) ≡ freelist_index n)
      × (round_up n ≤ max_bytes)
unfolding freelist_index round_up
freelist_index_lem n pn hn = (omega arith, omega arith, omega arith, omega arith)
