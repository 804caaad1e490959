-- ===== src/Examples/Buffers.antt =====
-- Examples for Buffer.cpp.
use nf_server.Prelude.{ℕ, ◌+◌, ◌≡◌, List, [], ◌∷◌, ◌++◌, some, arith, replicate, length-replicate}
use nf_server.MemCache.{round_up}
use nf_server.Buffer.{Buffer, done, new_len, add_data}
use nf_server.Buffer.Inv.{IsValid, unhandled, IsBlock}
use nf_server.Buffer.Append.{add_data_lem}

abbrev block : ℕ → List ℕ
block n = replicate (round_up n) 0

block-IsBlock : (n : ℕ) → IsBlock n (block n)
block-IsBlock n = length-replicate (round_up n) 0

-- Bytes 2 to 9 of a block of 512 are unhandled.
abbrev small : Buffer
small = record { cache = some (replicate 512 7); allo_len = 512; str_idx = 2; end_next = 10 }

small-IsValid : IsValid small
small-IsValid = record {
  ordered = omega arith;
  filled = omega arith;
  block = omega (arith, length-replicate {A = ℕ} 512 7);
}

abbrev three : List ℕ
three = 1 ∷ 2 ∷ 3 ∷ []

add_data_lem_example :
    (b' : Buffer) × (add_data (some (block 4)) (some (block (new_len 3 small + 1))) three small
      ≡ done b')
    × IsValid b'
    × (unhandled b' ≡ unhandled small ++ three)
add_data_lem_example =
    add_data_lem (block 4) (block (new_len 3 small + 1)) three small-IsValid (omega arith)
      (block-IsBlock 4) (block-IsBlock (new_len 3 small + 1))
