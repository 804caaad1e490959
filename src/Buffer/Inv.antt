-- ===== src/Buffer/Inv.antt =====
-- When a buffer is well formed, and the bytes that it has yet to hand out.
use nf_server.Prelude.{
  ℕ, ◌-◌, ◌^◌, ◌≤◌, ◌≡◌, refl, List, [], ◌∷◌, true, false, leb, ◌+◌, arith, length, take, drop,
  length-drop, length-take,
}
use nf_server.Buffer.{Buffer, int_limit, bytes_of, is_null}
use nf_server.MemCache.{round_up}
use nf_server.MemCache.Sizes.{round_up_bounds}

-- The indices are in order and within the length that is noted, and that length within the block.
pub record IsValid (b : Buffer) : Type 0 where
  pub ordered : b.str_idx ≤ b.end_next
  pub filled : b.end_next ≤ b.allo_len
  pub block : b.allo_len ≤ length (bytes_of b.cache)

-- The bytes from `str_idx` to `end_idx`.
abbrev pub unhandled : Buffer → List ℕ
unhandled b = drop b.str_idx (take b.end_next (bytes_of b.cache))

-- The block that `Allocate::allocate` gives for a size.
abbrev pub IsBlock : ℕ → List ℕ → Type 0
IsBlock size block = length block ≡ round_up size

pub length-unhandled : {b : Buffer} → IsValid b → length (unhandled b) ≡ b.end_next - b.str_idx
length-unhandled {b} v = omega (
  arith,
  length-drop b.str_idx (take b.end_next (bytes_of b.cache)),
  length-take b.end_next (bytes_of b.cache) (omega (arith, v.filled, v.block)),
)

pub le-round_up : (n : ℕ) → n ≤ 2 ^ 63 → n ≤ round_up n
le-round_up n h = (round_up_bounds n (omega arith)).0

pub no_overflow : (n : ℕ) → n + 256 ≤ int_limit → leb int_limit (round_up n) ≡ false
no_overflow n h = ground (arith, round_up_bounds n (omega (arith, h)))

eq_nil : (xs : List ℕ) → length xs ≡ 0 → xs ≡ []
eq_nil [] h = refl
eq_nil (x ∷ xs) h = absurd (omega arith)

-- A valid buffer with no block holds nothing.
pub unhandled-null : {b : Buffer} → IsValid b → is_null b.cache ≡ true → unhandled b ≡ []
unhandled-null {b} v e =
    eq_nil (unhandled b) (omega (arith, length-unhandled v, v.filled, v.block, empty))
  where
    empty : length (bytes_of b.cache) ≡ 0
    empty = ground arith
