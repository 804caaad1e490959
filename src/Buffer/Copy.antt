-- ===== src/Buffer/Copy.antt =====
-- The copy constructor and `operator=`: what they lose.
use nf_server.Prelude.{
  ℕ, zero, suc, ◌+◌, ◌-◌, ◌≤◌, ◌<◌, ◌≡◌, refl, sym, ap, ◌∙◌, some, List, arith, length, take, drop,
  length-take,
}
use nf_server.Buffer.{
  Buffer, int_limit, done, out_of_bounds, bytes_of, init, copy, copy_bytes, assign, swap, overwrite,
  memcpy,
}
use nf_server.Buffer.Bytes.{
  length-overwrite, memcpy-done, take-overwrite, drop-overwrite, drop-take, take-take,
}
use nf_server.Buffer.Inv.{IsValid, unhandled, IsBlock, length-unhandled, le-round_up, no_overflow}

-- A copy of a buffer that holds no byte up to `end_idx`, a new one or one that was reset, asks
-- `memcpy` for the largest length there is; so does an assignment from it.
copy-empty :
    (got : List ℕ) (b rhs : Buffer)
    → rhs.end_next ≡ 0
    → rhs.allo_len + 257 ≤ int_limit
    → (copy (some got) rhs ≡ out_of_bounds) × (assign (some got) b rhs ≡ out_of_bounds)
unfolding copy copy_bytes init assign
copy-empty got b rhs e small =
    let fits = no_overflow (rhs.allo_len + 1) (omega (arith, small)) in
    (rw (init, fits, e) refl, rw (init, fits, e) refl)

copy_bytes-pos :
    (n : ℕ) (block from : List ℕ)
    → 0 < n
    → copy_bytes n block from ≡ memcpy block 0 (take (n - 1) from)
unfolding copy_bytes
copy_bytes-pos zero block from h = elim h [ ]
copy_bytes-pos (suc n) block from h =
    ap (λ (k : ℕ). memcpy block 0 (take k from)) {x = n} (omega arith)

-- All but the last of the bytes from `s` to `e`.
all_but_last :
    (s e : ℕ) (xs : List ℕ) → take (e - s - 1) (drop s (take e xs)) ≡ drop s (take (e - 1) xs)
all_but_last s e xs =
    ap (λ (n : ℕ). take n (drop s (take e xs))) (omega arith)
    ∙ sym (drop-take s (e - 1) (take e xs))
    ∙ ap (drop s) (take-take (e - 1) e xs (omega arith))

-- The buffer that the copy makes.
abbrev copied : List ℕ → Buffer → Buffer
copied got rhs = record rhs {
  cache = some (overwrite got 0 (take (rhs.end_next - 1) (bytes_of rhs.cache)));
}

-- An assignment from a valid buffer with unhandled bytes, with a block of the size it asks for, ends
-- well and gives a valid buffer with the same indices. Of the unhandled bytes the last is not copied:
-- at its place stands what the new block held.
assign_lem :
    (got : List ℕ) (b : Buffer) {rhs : Buffer}
    → IsValid rhs
    → rhs.str_idx < rhs.end_next
    → rhs.allo_len + 257 ≤ int_limit
    → IsBlock (rhs.allo_len + 1) got
    → (b' : Buffer) × (assign (some got) b rhs ≡ done b')
      × IsValid b'
      × (length (unhandled b') ≡ length (unhandled rhs))
      × (take (length (unhandled rhs) - 1) (unhandled b')
          ≡ take (length (unhandled rhs) - 1) (unhandled rhs))
      × (drop (rhs.end_next - 1) (bytes_of b'.cache) ≡ drop (rhs.end_next - 1) got)
unfolding assign copy init swap
assign_lem got b {rhs} v lt small block = (
  copied got rhs,
  rw
      (
        init,
        no_overflow (rhs.allo_len + 1) (omega (arith, small)),
        copy_bytes-pos rhs.end_next got old (omega arith),
        memcpy-done got 0 from fits,
      )
      refl,
  valid,
  omega (arith, length-unhandled v, length-unhandled valid),
  rw (length-unhandled v) (
      all_but_last rhs.str_idx rhs.end_next (overwrite got 0 from)
      ∙ ap (drop rhs.str_idx) same
      ∙ sym (all_but_last rhs.str_idx rhs.end_next old)),
  ap (λ (n : ℕ). drop n (overwrite got 0 from)) (sym length-from)
      ∙ drop-overwrite got from
      ∙ ap (λ (n : ℕ). drop n got) length-from,
)
  where
    old : List ℕ
    old = bytes_of rhs.cache

    from : List ℕ
    from = take (rhs.end_next - 1) old

    length-from : length from ≡ rhs.end_next - 1
    length-from = length-take (rhs.end_next - 1) old (omega (arith, v.filled, v.block))

    room : rhs.allo_len + 1 ≤ length got
    room = omega (arith, le-round_up (rhs.allo_len + 1) (omega (arith, small)))

    fits : 0 + length from ≤ length got
    fits = omega (arith, length-from, room, v.filled)

    valid : IsValid (copied got rhs)
    valid = record {
      ordered = v.ordered;
      filled = v.filled;
      block = omega (arith, length-overwrite got 0 from, room);
    }

    same : take (rhs.end_next - 1) (overwrite got 0 from) ≡ from
    same =
        ap (λ (n : ℕ). take n (overwrite got 0 from)) (omega (arith, length-from))
        ∙ take-overwrite got 0 from fits
