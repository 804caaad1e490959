-- ===== src/Buffer/Append.antt =====
-- `add_data` and `fresh_cache`: what they append, and that they stay inside the block.
use nf_server.Prelude.{
  true, false, ℕ, ◌+◌, ◌*◌, ◌≤◌, ◌<◌, leb, ◌≡◌, refl, sym, ap, ◌∙◌, inl, inr, some, List, [], ◌++◌,
  arith, Bool-cases, length, take, drop, length-take,
}
use nf_server.Prelude.Int.{pos, ltb_ℤ}
use nf_server.Buffer.{
  Buffer, int_limit, done, ◌>>=◌, bytes_of, init, is_null, get_empty_size, new_len, fresh_cache,
  add_data, add_data_live, overwrite, memcpy,
}
use nf_server.Buffer.Bytes.{length-overwrite, take-overwrite, memcpy-done, drop-append}
use nf_server.Buffer.Inv.{IsValid, unhandled, unhandled-null, IsBlock, le-round_up, no_overflow}
use nf_server.MemCache.{round_up}

-- The bytes in use after `tmp` was written behind them.
unhandled-overwrite :
    (old tmp : List ℕ) (s e : ℕ)
    → s ≤ e
    → e + length tmp ≤ length old
    → drop s (take (e + length tmp) (overwrite old e tmp)) ≡ drop s (take e old) ++ tmp
unhandled-overwrite old tmp s e le h =
    rw (take-overwrite old e tmp h)
      (drop-append s (take e old) tmp (omega (arith, length-take e old (omega arith))))

-- The buffer after `tmp` went into its block, which has room for it.
abbrev pub written : Buffer → List ℕ → Buffer
written b tmp = record b {
  cache = some (overwrite (bytes_of b.cache) b.end_next tmp);
  end_next = b.end_next + length tmp;
}

pub written-done :
    (b : Buffer) (tmp : List ℕ)
    → b.end_next + length tmp ≤ length (bytes_of b.cache)
    → (memcpy (bytes_of b.cache) b.end_next tmp >>= λ block.
        done (record b { cache = some block; end_next = b.end_next + length tmp }))
      ≡ done (written b tmp)
written-done b tmp h = rw (memcpy-done (bytes_of b.cache) b.end_next tmp h) refl

pub written-IsValid :
    {b : Buffer} (tmp : List ℕ)
    → IsValid b
    → b.end_next + length tmp ≤ b.allo_len
    → IsValid (written b tmp) × (unhandled (written b tmp) ≡ unhandled b ++ tmp)
written-IsValid {b} tmp v fits = (
  record {
    ordered = omega (arith, v.ordered);
    filled = fits;
    block = omega (arith, v.block, length-overwrite (bytes_of b.cache) b.end_next tmp);
  },
  unhandled-overwrite (bytes_of b.cache) tmp b.str_idx b.end_next v.ordered
      (omega (arith, v.block)),
)

-- The buffer after its bytes went to the new block `got`.
abbrev pub moved : Buffer → List ℕ → List ℕ → ℕ → Buffer
moved b old got len = record b {
  cache = some (overwrite got 0 (take b.end_next old));
  allo_len = round_up (new_len len b + 1);
}

-- With a block of the size it asks for, `fresh_cache(len)` keeps the bytes, their place and the
-- invariant, and makes room for `len` more; the sizes stay below 2^31.
fresh_cache_lem :
    {b : Buffer} (got : List ℕ) (len : ℕ)
    → IsValid b
    → b.allo_len * 2 + len + 256 < int_limit
    → IsBlock (new_len len b + 1) got
    → (b' : Buffer) × (fresh_cache (some got) len b ≡ done b')
      × IsValid b'
      × (unhandled b' ≡ unhandled b)
      × (b'.end_next ≡ b.end_next)
      × (b'.end_next + len ≤ b'.allo_len)
unfolding fresh_cache
fresh_cache_lem {b} got len v small block = (
  moved b (bytes_of b.cache) got len,
  rw (fits, memcpy-done got 0 used (omega (arith, length-used, room, bound))) refl,
  record {
    ordered = v.ordered;
    filled = omega (arith, v.filled, room, bound);
    block = omega (arith, length-overwrite got 0 used, block);
  },
  ap (drop b.str_idx) (
      ap (λ (n : ℕ). take n (overwrite got 0 used)) (omega (arith, length-used))
      ∙ take-overwrite got 0 used (omega (arith, length-used, room, bound))),
  refl,
  omega (arith, room, bound),
)
  where
    used : List ℕ
    used = take b.end_next (bytes_of b.cache)

    length-used : length used ≡ b.end_next
    length-used = length-take b.end_next (bytes_of b.cache) (omega (arith, v.filled, v.block))

    bound : (new_len len b + 256 < int_limit) × (b.end_next + len ≤ new_len len b)
    bound = ground (arith, v.filled)

    room : new_len len b + 1 ≤ round_up (new_len len b + 1)
    room = le-round_up (new_len len b + 1) (omega (arith, bound))

    fits : leb int_limit (round_up (new_len len b + 1)) ≡ false
    fits = no_overflow (new_len len b + 1) (omega (arith, bound))

module _ (got : List ℕ) (tmp : List ℕ) {b : Buffer} where
  add_data_live-fits :
      IsValid b
      → b.end_next + length tmp ≤ b.allo_len
      → add_data_live (some got) tmp b ≡ done (written b tmp)
  unfolding add_data_live
  add_data_live-fits v room = rw fits (written-done b tmp (omega (arith, room, v.block)))
    where
      fits : ltb_ℤ (get_empty_size b) (pos (length tmp)) ≡ false
      fits = ground (arith, v.filled)

  add_data_live_lem :
      IsValid b
      → b.allo_len * 2 + length tmp + 256 < int_limit
      → IsBlock (new_len (length tmp) b + 1) got
      → (b' : Buffer) × (add_data_live (some got) tmp b ≡ done b')
        × IsValid b'
        × (unhandled b' ≡ unhandled b ++ tmp)
  unfolding add_data_live
  add_data_live_lem v small block =
      elim (Bool-cases (ltb_ℤ (get_empty_size b) (pos (length tmp)))) [
        | inl grow ↦
            let (c, run, vc, same, _, room) = fresh_cache_lem got (length tmp) v small block in
            (
              written c tmp,
              rw (grow, run) (written-done c tmp (omega (arith, room, vc.block))),
              (written-IsValid tmp vc room).0,
              (written-IsValid tmp vc room).1 ∙ ap (λ (t : List ℕ). t ++ tmp) same,
            )
        | inr fits ↦
            let room : b.end_next + length tmp ≤ b.allo_len = ground (arith, v.filled) in
            (
              written b tmp,
              rw fits (written-done b tmp (omega (arith, room, v.block))),
              (written-IsValid tmp v room).0,
              (written-IsValid tmp v room).1,
            )
      ]

-- The buffer that `init` makes for `tmp`.
abbrev started : List ℕ → List ℕ → Buffer
started got tmp = record {
  cache = some got;
  allo_len = round_up (length tmp + 1);
  str_idx = 0;
  end_next = 0;
}

-- `add_data` on a valid buffer, with blocks of the sizes it asks for and sizes that stay below 2^31,
-- ends without a throw, an access outside a block or an overflow of an `int`; the buffer stays valid and its unhandled bytes are
-- followed by the new ones. This holds with no block yet, with room left and when the block grows.
pub add_data_lem :
    (got got' tmp : List ℕ) {b : Buffer}
    → IsValid b
    → b.allo_len * 2 + length tmp + 256 < int_limit
    → IsBlock (length tmp + 1) got
    → IsBlock (new_len (length tmp) b + 1) got'
    → (b' : Buffer) × (add_data (some got) (some got') tmp b ≡ done b')
      × IsValid b'
      × (unhandled b' ≡ unhandled b ++ tmp)
unfolding add_data init
add_data_lem got got' tmp {b} v small block block' = elim (Bool-cases (is_null b.cache)) [
  | inl absent ↦
      let c = started got tmp in
      (
        written c tmp,
        rw (absent, no_overflow (length tmp + 1) (omega (arith, small)))
            (add_data_live-fits got' tmp started-IsValid room),
        (written-IsValid tmp started-IsValid room).0,
        (written-IsValid tmp started-IsValid room).1
            ∙ ap (λ (t : List ℕ). t ++ tmp) (sym (nothing absent)),
      )
  | inr present ↦ rw present (add_data_live_lem got' tmp v small block')
]
  where
    size : length tmp + 1 ≤ round_up (length tmp + 1)
    size = le-round_up (length tmp + 1) (omega (arith, small))

    room : 0 + length tmp ≤ round_up (length tmp + 1)
    room = omega (arith, size)

    started-IsValid : IsValid (started got tmp)
    started-IsValid = record { ordered = omega arith; filled = omega arith; block = omega arith }

    nothing : is_null b.cache ≡ true → unhandled b ≡ []
    nothing e = unhandled-null v e
