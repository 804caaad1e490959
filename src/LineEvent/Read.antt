-- ===== src/LineEvent/Read.antt =====
-- `read_callback`: what is stored, and the calls of the callback for a line.
use nf_server.Prelude.{
  ℕ, zero, suc, ◌+◌, ◌-◌, ◌≤◌, ◌<◌, ◌≡◌, refl, sym, ap, ap₂, ◌∙◌, inl, inr, false, Option, some,
  List, [], ◌∷◌, ◌++◌, arith, Bool-cases, ◌==◌, get_elem?, if◌then◌else◌, length, take, drop,
}
use nf_server.Prelude.Int.{pos, pos_part, ltb_ℤ}
use nf_server.Net.{eagain, Got, failed, Wrote}
use nf_server.Net.Transfer.{readn, readn_short, IsProgress}
use nf_server.Buffer.{Buffer, done, bytes_of, overwrite, get_empty_size, get_unhandle_num}
use nf_server.Buffer.Bytes.{length-overwrite, memcpy-done, drop-take}
use nf_server.Buffer.Inv.{IsValid, unhandled}
use nf_server.Buffer.Append.{written, written-IsValid}
use nf_server.LineEvent.{LineEvent, finished, scan, store, read_end, read_done, read_callback}

-- One past the place of each line feed, the first byte at `i`.
unfoldable pub line_ends : ℕ → List ℕ → List ℕ
line_ends i [] = []
line_ends i (c ∷ cs) =
    let rest = line_ends (i + 1) cs in if c == b'\n' then (i + 1) ∷ rest else rest

-- The callback once for each line, in order.
unfoldable pub lines_done : (LineEvent → LineEvent) → List ℕ → LineEvent → LineEvent
lines_done line_done [] e = e
lines_done line_done (n ∷ ns) e = lines_done line_done ns (line_done (record e { flag = pos n }))

-- The callback leaves the block of the read buffer as it is.
abbrev pub IsInPlace : (LineEvent → LineEvent) → Type 0
IsInPlace line_done =
    (e : LineEvent) → bytes_of (line_done e).read_buffer.cache ≡ bytes_of e.read_buffer.cache

byte_at :
    (n : ℕ) (xs : List ℕ)
    → n < length xs
    → (c : ℕ) × (get_elem? xs n ≡ some c) × (drop n xs ≡ c ∷ drop (n + 1) xs)
byte_at n [] h = absurd (omega arith)
byte_at zero (x ∷ xs) h = (x, refl, refl)
byte_at (suc n) (x ∷ xs) h =
    let (c, at, here) = byte_at n xs (omega arith) in
    (c, at, here ∙ ap (λ k. c ∷ drop k (x ∷ xs)) {x = suc (n + 1)} {y = suc n + 1} (omega arith))

scan_lem :
    (line_done : LineEvent → LineEvent) (xs : List ℕ) (from i k : ℕ) (e : LineEvent)
    → IsInPlace line_done
    → bytes_of e.read_buffer.cache ≡ xs
    → from + i + k ≤ length xs
    → scan line_done from i k e
      ≡ finished (lines_done line_done (line_ends i (take k (drop (from + i) xs))) e)
unfolding scan lines_done line_ends
scan_lem line_done xs from i zero e p same h = refl
scan_lem line_done xs from i (suc k) e p same h =
    let (c, at, here) = byte_at (from + i) xs (omega arith) in
    let next : from + (i + 1) ≡ from + i + 1 = omega arith in
    let read = ap (λ bs. get_elem? bs (from + i)) same ∙ at in
    elim (Bool-cases (c == b'\n')) [
      | inl lf ↦
          let e' = line_done (record e { flag = pos (i + 1) }) in
          rw (scan, read, here, lf)
            (rw next at (scan_lem line_done xs from (i + 1) k e' p (p _ ∙ same) (omega arith)))
      | inr plain ↦
          rw (scan, read, here, plain)
            (rw next at (scan_lem line_done xs from (i + 1) k e p same (omega arith)))
    ]

-- The event after `ys` were stored behind the unhandled bytes.
abbrev pub received : LineEvent → List ℕ → LineEvent
received e ys = record e { read_buffer = written e.read_buffer ys }

-- The buffer with `ys` in its block, before they count.
abbrev stored : Buffer → List ℕ → Buffer
stored b ys = record b { cache = some (overwrite (bytes_of b.cache) b.end_next ys) }

store-fits :
    (b : Buffer) (ys : List ℕ)
    → b.end_next + length ys ≤ length (bytes_of b.cache)
    → store ys b ≡ done (stored b ys)
unfolding store
store-fits b ys h = rw (store, memcpy-done (bytes_of b.cache) b.end_next ys h) refl

-- When there is room for 512 bytes or more, and `read` delivers `ys`, fewer than there is room for, in
-- whatever pieces and however often it is interrupted, and would then block, the bytes are stored behind
-- the unhandled ones, the buffer stays valid, and if the callback for a line leaves the block in place it
-- runs once for each line feed of the unhandled bytes, in order, with `_read_buff_flag` one past it
-- counted from the first unhandled byte; then the space is checked and what is to be written is sent.
pub read_callback_lem :
    (line_done : LineEvent → LineEvent) (got : Option (List ℕ)) (gs hs : List Got) (ws : List Wrote)
    (ys : List ℕ) (m : ℕ) (e : LineEvent)
    → IsInPlace line_done
    → IsValid e.read_buffer
    → e.read_buffer.end_next + 512 ≤ e.read_buffer.allo_len
    → IsProgress gs ys
    → e.read_buffer.end_next + length ys + suc m ≡ e.read_buffer.allo_len
    → IsValid (received e ys).read_buffer
      × (unhandled (received e ys).read_buffer ≡ unhandled e.read_buffer ++ ys)
      × (read_callback line_done got (gs ++ (failed eagain ∷ hs)) ws e
          ≡ read_end ws (
              finished (
                lines_done line_done
                  (line_ends 0 (unhandled e.read_buffer ++ ys))
                  (received e ys))))
unfolding read_callback read_done
read_callback_lem line_done got gs hs ws ys m e p v room t size = (
  valid.0,
  valid.1,
  rw (read_callback, big, here, read_done, store-fits b ys (omega (arith, v.block)), nonneg)
      (ap (read_end ws) scanned),
)
  where
    b : Buffer
    b = e.read_buffer

    valid : IsValid (written b ys) × (unhandled (written b ys) ≡ unhandled b ++ ys)
    valid = written-IsValid ys v (omega arith)

    big : ltb_ℤ (get_empty_size b) (pos 512) ≡ false
    big = ground arith

    here :
        readn (gs ++ (failed eagain ∷ hs)) (pos_part (get_empty_size b))
        ≡ some (pos (length ys), ys)
    here = (readn_short (pos_part (get_empty_size b)) m hs gs ys t (ground arith)).0

    nonneg : ltb_ℤ (pos (length ys)) (pos 0) ≡ false
    nonneg = ground arith

    k : ℕ
    k = pos_part (get_unhandle_num (written b ys))

    xs : List ℕ
    xs = overwrite (bytes_of b.cache) b.end_next ys

    size_k : k ≡ (b.end_next + length ys) - b.str_idx
    size_k = ground arith

    start : b.str_idx + 0 ≡ b.str_idx
    start = omega arith

    bytes : take k (drop (b.str_idx + 0) xs) ≡ unhandled b ++ ys
    bytes =
        ap₂ (λ (i j : ℕ). take i (drop j xs)) size_k start
        ∙ sym (drop-take b.str_idx (b.end_next + length ys) xs)
        ∙ valid.1

    scanned :
        scan line_done b.str_idx 0 k (received e ys)
        ≡ finished (lines_done line_done (line_ends 0 (unhandled b ++ ys)) (received e ys))
    scanned =
        scan_lem line_done xs b.str_idx 0 k (received e ys) p refl
          (omega (arith, size_k, v.block, length-overwrite (bytes_of b.cache) b.end_next ys))
        ∙ ap (λ cs. finished (lines_done line_done (line_ends 0 cs) (received e ys))) bytes
