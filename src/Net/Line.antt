-- ===== src/Net/Line.antt =====
-- `find_line`. A read past the bytes of `req` gives `none`.
use nf_server.Prelude.{
  ℕ, zero, suc, ◌+◌, ◌≡◌, ◌≢◌, refl, ap, ap₂, ◌∙◌, Option, none, some, List, [], ◌∷◌, ◌++◌, arith,
  ◌==◌, if◌then◌else◌, length, beq_ne, beq_eq,
}
use nf_server.Prelude.Int.{ℤ, pos, failure}

-- The loop from index `i` on, with `n` rounds to go.
find_loop : List ℕ → ℕ → ℕ → ℕ → Option ℤ
find_loop req zero label i = some failure
find_loop [] (suc n) label i = none
find_loop (c ∷ req) (suc n) label i =
    if c == label then some (pos i) else find_loop req n label (suc i)

pub find_line : List ℕ → ℕ → ℕ → Option ℤ
unfolding find_loop
find_line req end_ label = find_loop req end_ label 0

-- Bytes among which `label` is not.
pub data IsWithout (label : ℕ) : List ℕ → Type 0 where
  no_bytes : IsWithout label []
  unlike : {xs : List ℕ} (c : ℕ) → c ≢ label → IsWithout label xs → IsWithout label (c ∷ xs)

find_past :
    (label : ℕ) (xs ys : List ℕ) (n i : ℕ)
    → IsWithout label xs
    → find_loop (xs ++ ys) (length xs + n) label i ≡ find_loop ys n label (length xs + i)
unfolding find_loop
find_past label xs ys n i no_bytes =
    ap₂ (λ a b. find_loop ys a label b) {x = 0 + n} {y = n} (omega arith) (omega arith)
find_past label xs ys n i (unlike {xs = xs'} c ne w) =
    ap (λ a. find_loop (c ∷ (xs' ++ ys)) a label i) {x = suc (length xs') + n}
      {y = suc (length xs' + n)} (omega arith)
    ∙ ap (λ t. if t then some (pos i) else find_loop (xs' ++ ys) (length xs' + n) label (suc i))
        (beq_ne c label ne)
    ∙ find_past label xs' ys n (suc i) w
    ∙ ap (λ b. find_loop ys n label b) {x = length xs' + suc i} {y = suc (length xs') + i}
        (omega arith)

-- `find_line` returns the index of the first `label` among the first `end` bytes, and -1 when there is
-- none among them.
find_line_lem :
    (label : ℕ) (xs ys : List ℕ) (k : ℕ)
    → IsWithout label xs
    → (find_line (xs ++ (label ∷ ys)) (length xs + suc k) label ≡ some (pos (length xs)))
      × (find_line (xs ++ ys) (length xs) label ≡ some failure)
unfolding find_line find_loop
find_line_lem label xs ys k w = (
  find_past label xs (label ∷ ys) (suc k) 0 w
      ∙ ap
          (λ t.
            if t then some (pos (length xs + 0)) else find_loop ys k label (suc (length xs + 0)))
          (beq_eq label label refl)
      ∙ ap (λ (n : ℕ). some (pos n)) {x = length xs + 0} {y = length xs} (omega arith),
  ap (λ n. find_loop (xs ++ ys) n label 0) {x = length xs} {y = length xs + 0} (omega arith)
      ∙ find_past label xs ys 0 0 w,
)
