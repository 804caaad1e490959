-- ===== src/Buffer.antt =====
-- Buffer.h and Buffer.cpp: the byte buffer of a connection, with `move_forward` of net.cpp.
-- The field `end_next` is the source's `end_idx` plus one, so an empty buffer has 0 where the source
-- has -1. What `Allocate::allocate` returns is an argument, `none` for NULL. The build defines WORK
-- (util.h), so the parts under `#ifndef WORK` are not compiled; logging is left out.
pub mod Bytes
pub mod Inv
pub mod Append
pub mod Consume
pub mod Copy
use nf_server.Prelude.{
  ℕ, zero, suc, ◌+◌, ◌-◌, ◌*◌, ◌/◌, ◌^◌, Bool, true, false, ◌&&◌, Option, none, some, List, [], ◌∷◌,
  ltb, leb, ◌==◌, if◌then◌else◌, length, get_or, set, take,
}
use nf_server.Prelude.Int.{ℤ, pos, sub_ℕ, ltb_ℤ}
use mathlib.Core.Option
use nf_server.MemCache.{round_up}

-- `cache` points at a block or is NULL.
pub record Buffer : Type 0 where
  pub cache : Option (List ℕ)
  pub allo_len : ℕ
  pub str_idx : ℕ
  pub end_next : ℕ

-- An operation ends, throws, accesses memory outside a block, or makes a size that no `int` holds.
pub data Outcome (A : Type 0) : Type 0 where
  done : A → Outcome A
  threw : Outcome A
  out_of_bounds : Outcome A
  overflow : Outcome A

infixl 5 ◌>>=◌
abbrev pub ◌>>=◌ : {A B : Type 0} → Outcome A → (A → Outcome B) → Outcome B
done a >>= f = f a
threw >>= f = threw
out_of_bounds >>= f = out_of_bounds
overflow >>= f = overflow

-- One more than the largest `int`.
abbrev pub int_limit : ℕ
int_limit = 2 ^ 31

abbrev pub fresh_limit : ℕ
fresh_limit = 1024

-- The bytes `ys` over those of `xs` from `off` on.
pub overwrite : List ℕ → ℕ → List ℕ → List ℕ
overwrite [] off ys = []
overwrite (x ∷ xs) (suc off) ys = x ∷ overwrite xs off ys
overwrite (x ∷ xs) zero [] = x ∷ xs
overwrite (x ∷ xs) zero (y ∷ ys) = y ∷ overwrite xs zero ys

-- `memcpy(p + off, ys, len)` into the block `xs` that `p` points at.
pub memcpy : List ℕ → ℕ → List ℕ → Outcome (List ℕ)
memcpy xs off ys =
    if leb (off + length ys) (length xs) then done (overwrite xs off ys) else out_of_bounds

abbrev pub null_buffer : Buffer
null_buffer = record { cache = none; allo_len = 0; str_idx = 0; end_next = 0 }

pub init : Option (List ℕ) → ℕ → Outcome Buffer
init none size = threw
init (some block) size =
    if leb int_limit (round_up (size + 1))
    then overflow
    else done
        (record { cache = some block; allo_len = round_up (size + 1); str_idx = 0; end_next = 0 })

abbrev pub is_null : Option (List ℕ) → Bool
is_null none = true
is_null (some block) = false

abbrev pub bytes_of : Option (List ℕ) → List ℕ
bytes_of none = []
bytes_of (some block) = block

pub clear : Buffer → Buffer
clear b = if is_null b.cache then b else null_buffer

abbrev pub get_empty_size : Buffer → ℤ
get_empty_size b = sub_ℕ b.allo_len b.end_next

abbrev pub get_unhandle_num : Buffer → ℤ
get_unhandle_num b = sub_ℕ b.end_next b.str_idx

abbrev pub add_unhandle_num : ℕ → Buffer → Buffer
add_unhandle_num size b = record b { end_next = b.end_next + size }

-- The new length is the larger of twice the old one and what is asked for.
abbrev pub new_len : ℕ → Buffer → ℕ
new_len len b = if ltb (b.end_next + len) (b.allo_len * 2) then 2 * b.allo_len else b.end_next + len

-- The new length and what it comes from are `int`s, of which `allo_len` is the largest. A NULL block is
-- written through unless there is nothing to copy.
pub fresh_cache : Option (List ℕ) → ℕ → Buffer → Outcome Buffer
fresh_cache got len b =
    if leb int_limit (round_up (new_len len b + 1))
    then overflow
    else memcpy (bytes_of got) 0 (take b.end_next (bytes_of b.cache)) >>= λ block. done (record b {
      cache = Option.map (λ old. block) got;
      allo_len = round_up (new_len len b + 1);
    })

-- The rest of `add_data`, once there is a block.
pub add_data_live : Option (List ℕ) → List ℕ → Buffer → Outcome Buffer
add_data_live got tmp b =
    (if ltb_ℤ (get_empty_size b) (pos (length tmp)) then fresh_cache got (length tmp) b else done b)
    >>= λ c. memcpy (bytes_of c.cache) c.end_next tmp >>= λ block.
        done (record c { cache = some block; end_next = c.end_next + length tmp })

-- `got` is the block for `init`, `got'` that for `fresh_cache`, where they are reached. The result
-- `len` is the length of `tmp`.
pub add_data : Option (List ℕ) → Option (List ℕ) → List ℕ → Buffer → Outcome Buffer
add_data got got' tmp b =
    if is_null b.cache
    then init got (length tmp) >>= add_data_live got' tmp
    else add_data_live got' tmp b

-- The loop of `move_forward` with `k` rounds left, copying the byte at `i` to `j`.
pub move_loop : ℕ → ℕ → ℕ → List ℕ → List ℕ
move_loop zero j i req = req
move_loop (suc k) j i req = move_loop k (j + 1) (i + 1) (set req j (get_or req i 0))

-- `move_forward(req, start, end)`, with `end_next` for `end + 1`.
pub move_forward : List ℕ → ℕ → ℕ → List ℕ
move_forward req start end_next = move_loop (end_next - start) 0 start req

-- `str_idx = 0` comes before `end_idx -= str_idx`. The last write is at `end_idx + 1`.
pub compacted : Buffer → Outcome Buffer
compacted b =
    let c : Buffer = record b {
      cache = some (move_forward (bytes_of b.cache) b.str_idx b.end_next);
      str_idx = 0;
    } in
    let d : Buffer = record c { end_next = c.end_next - c.str_idx } in
    memcpy (bytes_of d.cache) d.end_next (0 ∷ []) >>= λ block.
    done (record d { cache = some block })

pub check_empty_space : Buffer → Outcome Buffer
check_empty_space b =
    if ltb fresh_limit b.allo_len && ltb (b.allo_len / 2) b.str_idx then compacted b else done b

-- `str_idx >= end_idx` reads `end_idx + 1 <= str_idx + 1`.
pub add_handl_num : ℕ → Buffer → Buffer
add_handl_num handled b =
    let c : Buffer = record b { str_idx = b.str_idx + handled } in
    if leb c.end_next (c.str_idx + 1)
    then (if ltb fresh_limit c.allo_len then clear c else record c { str_idx = 0; end_next = 0 })
    else c

-- `memcpy(cache, rhs_cache, end_idx)`: at `end_idx` = -1 the length is the largest `size_t`, which no
-- block has.
pub copy_bytes : ℕ → List ℕ → List ℕ → Outcome (List ℕ)
copy_bytes zero block from = out_of_bounds
copy_bytes (suc end_idx) block from = memcpy block 0 (take end_idx from)

-- The copy constructor.
pub copy : Option (List ℕ) → Buffer → Outcome Buffer
copy got rhs = init got rhs.allo_len >>= λ b.
    copy_bytes rhs.end_next (bytes_of b.cache) (bytes_of rhs.cache) >>= λ block.
    done (record rhs { cache = some block })

pub swap : Buffer × Buffer → Buffer × Buffer
swap (a, b) = (b, a)

-- `operator=`: the copy is swapped in, and the old buffer goes with the temporary.
pub assign : Option (List ℕ) → Buffer → Buffer → Outcome Buffer
assign got b rhs = copy got rhs >>= λ tmp. done (swap (b, tmp)).0
