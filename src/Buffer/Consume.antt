-- ===== src/Buffer/Consume.antt =====
-- `add_handl_num` and `check_empty_space`: what is left to hand out after bytes were handled.
use nf_server.Prelude.{
  ℕ, ◌+◌, ◌-◌, ◌/◌, ◌≤◌, ◌<◌, ◌≡◌, refl, sym, ap, ◌∙◌, inl, inr, false, some, List, [], ◌∷◌, arith,
  ltb, le→leb, lt→leb_false, tests, ltb→lt, lt→ltb, if◌then◌else◌, Bool-cases, length, take, drop,
}
use nf_server.Buffer.{
  Buffer, done, out_of_bounds, bytes_of, is_null, fresh_limit, clear, add_handl_num,
  check_empty_space, compacted, memcpy, overwrite, move_forward,
}
use nf_server.Buffer.Bytes.{
  length-overwrite, memcpy-done, drop-drop, length-move_forward, take-move_forward,
  take-overwrite_low, take-take, drop-take,
}
use nf_server.Buffer.Inv.{IsValid, unhandled, length-unhandled}

-- A valid buffer with a large length has a block.
block_of_big : {b : Buffer} → IsValid b → fresh_limit < b.allo_len → is_null b.cache ≡ false
block_of_big v h = ground (arith, v.block)

-- Where at most one byte would be left, the buffer is reset, and a large one gives its block back.
handled_last :
    {b : Buffer} (n : ℕ)
    → IsValid b
    → b.end_next ≤ b.str_idx + n + 1
    → IsValid (add_handl_num n b) × (unhandled (add_handl_num n b) ≡ [])
unfolding add_handl_num clear
handled_last {b} n v h = rw (le→leb _ _ h) (elim (Bool-cases (ltb fresh_limit b.allo_len)) [
  | inl big ↦
      rw (big, block_of_big v (ltb→lt _ _ big))
        (record { ordered = omega arith; filled = omega arith; block = omega arith }, refl)
  | inr small ↦
      rw small (record { ordered = omega arith; filled = omega arith; block = v.block }, refl)
])

handled_some :
    {b : Buffer} (n : ℕ)
    → IsValid b
    → b.str_idx + n + 1 < b.end_next
    → IsValid (add_handl_num n b) × (unhandled (add_handl_num n b) ≡ drop n (unhandled b))
unfolding add_handl_num
handled_some {b} n v h = rw (lt→leb_false b.end_next (b.str_idx + n + 1) h) (
  record { ordered = omega arith; filled = v.filled; block = v.block },
  sym (drop-drop n b.str_idx (take b.end_next (bytes_of b.cache))),
)

-- After `n` of the unhandled bytes were handled the others are left, in order, if they are two or
-- more. If one is left it is dropped with the rest: the buffer is then empty, as it is when none is
-- left. The buffer stays valid.
pub add_handl_num_lem :
    {b : Buffer} (n : ℕ)
    → IsValid b
    → n ≤ length (unhandled b)
    → IsValid (add_handl_num n b)
      × (unhandled (add_handl_num n b)
          ≡ (if ltb (n + 1) (length (unhandled b)) then drop n (unhandled b) else []))
add_handl_num_lem {b} n v le = elim (Bool-cases (ltb (n + 1) (length (unhandled b)))) [
  | inl more ↦ rw more (handled_some n v (omega (tests, length-unhandled v)))
  | inr last ↦
      let few : length (unhandled b) ≤ n + 1 = ground arith in
      rw last (handled_last n v (omega (arith, length-unhandled v)))
]

-- The test under which `check_empty_space` moves the bytes.
abbrev IsWasteful : Buffer → Type 0
IsWasteful b = (fresh_limit < b.allo_len) × (b.allo_len / 2 < b.str_idx)

sub-zero : (n : ℕ) → n - 0 ≡ n
sub-zero n = omega arith

-- The move writes a byte at `end_idx + 1`: if the bytes end where the block ends, this is outside the
-- block.
check_empty_space_overrun :
    {b : Buffer}
    → IsValid b
    → IsWasteful b
    → b.end_next ≡ length (bytes_of b.cache)
    → check_empty_space b ≡ out_of_bounds
unfolding check_empty_space compacted memcpy
check_empty_space_overrun {b} v w e =
    rw
      (
        lt→ltb _ _ w.0,
        lt→ltb _ _ w.1,
        sub-zero b.end_next,
        length-move_forward (bytes_of b.cache) b.str_idx b.end_next,
        lt→leb_false (b.end_next + 1) (length (bytes_of b.cache)) (omega arith),
      )
      refl

-- The buffer after the move.
abbrev compact : Buffer → Buffer
compact b = record b {
  cache =
      some (overwrite (move_forward (bytes_of b.cache) b.str_idx b.end_next) b.end_next (0 ∷ []));
  str_idx = 0;
}

check_empty_space-compact :
    {b : Buffer}
    → IsValid b
    → IsWasteful b
    → b.end_next < length (bytes_of b.cache)
    → check_empty_space b ≡ done (compact b)
unfolding check_empty_space compacted
check_empty_space-compact {b} v w h =
    rw
      (
        lt→ltb _ _ w.0,
        lt→ltb _ _ w.1,
        sub-zero b.end_next,
        memcpy-done (move_forward (bytes_of b.cache) b.str_idx b.end_next) b.end_next (0 ∷ [])
            (omega (arith, length-move_forward (bytes_of b.cache) b.str_idx b.end_next)),
      )
      refl

-- When the test holds and the bytes end inside the block, `check_empty_space` brings the unhandled
-- bytes to the front; but it leaves `end_idx` where it is, so `str_idx` bytes that were handled before
-- count as unhandled behind them. The buffer stays valid.
check_empty_space_lem :
    {b : Buffer}
    → IsValid b
    → IsWasteful b
    → b.end_next < length (bytes_of b.cache)
    → (b' : Buffer) × (check_empty_space b ≡ done b')
      × IsValid b'
      × (take (length (unhandled b)) (unhandled b') ≡ unhandled b)
      × (length (unhandled b') ≡ length (unhandled b) + b.str_idx)
check_empty_space_lem {b} v w h = (
  compact b,
  check_empty_space-compact v w h,
  valid,
  front,
  omega (arith, length-unhandled v, length-unhandled valid, v.ordered),
)
  where
    req : List ℕ
    req = bytes_of b.cache

    moved : List ℕ
    moved = move_forward req b.str_idx b.end_next

    valid : IsValid (compact b)
    valid = record {
      ordered = omega arith;
      filled = v.filled;
      block = omega (
        arith,
        v.block,
        length-overwrite moved b.end_next (0 ∷ []),
        length-move_forward req b.str_idx b.end_next,
      );
    }

    front : take (length (unhandled b)) (unhandled (compact b)) ≡ unhandled b
    front =
        ap (λ (n : ℕ). take n (unhandled (compact b))) (length-unhandled v)
        ∙ take-take (b.end_next - b.str_idx) b.end_next (overwrite moved b.end_next (0 ∷ []))
            (omega arith)
        ∙ take-overwrite_low (b.end_next - b.str_idx) b.end_next moved (0 ∷ []) (omega arith)
        ∙ take-move_forward req b.str_idx b.end_next v.ordered (omega (arith, v.filled, v.block))
        ∙ sym (drop-take b.str_idx b.end_next req)
