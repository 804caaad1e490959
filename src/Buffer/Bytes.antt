-- ===== src/Buffer/Bytes.antt =====
-- What `memcpy` and `move_forward` do to the bytes of a block.
use nf_server.Prelude.{
  ℕ, zero, suc, ◌+◌, ◌-◌, ◌≤◌, ◌<◌, ◌≡◌, refl, sym, ap, ◌∙◌, List, [], ◌∷◌, ◌++◌, arith, length,
  take, drop, set, get_or, length-set, append-nil, take-nil, drop-nil, append_assoc,
}
use native.Mathlib.Nat.{zero-add}
use native.Mathlib.Numerals.{towards_suc}
use nf_server.Buffer.{done, out_of_bounds, overwrite, memcpy, move_loop, move_forward}

suc_left : (a b : ℕ) → suc (a + b) ≡ suc a + b
suc_left a b = omega arith

pub length-overwrite :
    (xs : List ℕ) (off : ℕ) (ys : List ℕ) → length (overwrite xs off ys) ≡ length xs
unfolding overwrite
length-overwrite [] off ys = refl
length-overwrite (x ∷ xs) (suc off) ys = ap suc (length-overwrite xs off ys)
length-overwrite (x ∷ xs) zero [] = refl
length-overwrite (x ∷ xs) zero (y ∷ ys) = ap suc (length-overwrite xs zero ys)

-- Up to the end of the written bytes the block holds what it held before them, and them.
pub take-overwrite :
    (xs : List ℕ) (off : ℕ) (ys : List ℕ)
    → off + length ys ≤ length xs
    → take (off + length ys) (overwrite xs off ys) ≡ take off xs ++ ys
unfolding overwrite
take-overwrite [] zero [] h = refl
take-overwrite [] zero (y ∷ ys) h = absurd (omega arith)
take-overwrite [] (suc off) ys h = absurd (omega arith)
take-overwrite (x ∷ xs) (suc off) ys h =
    rw (← suc_left off (length ys))
      (ap (λ (t : List ℕ). x ∷ t) (take-overwrite xs off ys (omega arith)))
take-overwrite (x ∷ xs) zero [] h = refl
take-overwrite (x ∷ xs) zero (y ∷ ys) h =
    rw zero-add
      (ap (λ (t : List ℕ). y ∷ t) (rw zero-add at (take-overwrite xs zero ys (omega arith))))

pub memcpy-done :
    (xs : List ℕ) (off : ℕ) (ys : List ℕ)
    → off + length ys ≤ length xs
    → memcpy xs off ys ≡ done (overwrite xs off ys)
unfolding memcpy
memcpy-done xs off ys h = ground arith

pub memcpy-out_of_bounds :
    (xs : List ℕ) (off : ℕ) (ys : List ℕ)
    → length xs < off + length ys
    → memcpy xs off ys ≡ out_of_bounds
unfolding memcpy
memcpy-out_of_bounds xs off ys h = ground arith

pub drop-append : (n : ℕ) (xs ys : List ℕ) → n ≤ length xs → drop n (xs ++ ys) ≡ drop n xs ++ ys
drop-append zero xs ys h = refl
drop-append (suc n) [] ys h = absurd (omega arith)
drop-append (suc n) (x ∷ xs) ys h = drop-append n xs ys (omega arith)

pub drop-drop : (m n : ℕ) (xs : List ℕ) → drop m (drop n xs) ≡ drop (n + m) xs
drop-drop m zero xs = ap (λ (k : ℕ). drop k xs) (omega arith)
drop-drop m (suc n) [] = rw (drop-nil m, drop-nil (suc n + m)) refl
drop-drop m (suc n) (x ∷ xs) = drop-drop m n xs ∙ ap (λ (k : ℕ). drop k (x ∷ xs)) (suc_left n m)

pub drop-all : (n : ℕ) (xs : List ℕ) → length xs ≤ n → drop n xs ≡ []
drop-all zero [] h = refl
drop-all zero (x ∷ xs) h = elim h [ ]
drop-all (suc n) [] h = refl
drop-all (suc n) (x ∷ xs) h = drop-all n xs (omega arith)

length-move_loop : (k j i : ℕ) (req : List ℕ) → length (move_loop k j i req) ≡ length req
unfolding move_loop
length-move_loop zero j i req = refl
length-move_loop (suc k) j i req =
    length-move_loop k (j + 1) (i + 1) (set req j (get_or req i 0))
    ∙ length-set req j (get_or req i 0)

pub length-move_forward :
    (req : List ℕ) (start end_next : ℕ) → length (move_forward req start end_next) ≡ length req
unfolding move_forward
length-move_forward req start end_next = length-move_loop (end_next - start) 0 start req

take-set :
    (xs : List ℕ) (j v : ℕ) → j < length xs → take (suc j) (set xs j v) ≡ take j xs ++ (v ∷ [])
take-set [] j v h = elim h [ ]
take-set (x ∷ xs) zero v h = refl
take-set (x ∷ xs) (suc j) v h = ap (λ (t : List ℕ). x ∷ t) (take-set xs j v (omega arith))

drop-set : (xs : List ℕ) (j n v : ℕ) → j < n → drop n (set xs j v) ≡ drop n xs
drop-set [] j n v h = refl
drop-set (x ∷ xs) j zero v h = elim h [ ]
drop-set (x ∷ xs) zero (suc n) v h = refl
drop-set (x ∷ xs) (suc j) (suc n) v h = drop-set xs j n v (omega arith)

take-drop-suc :
    (xs : List ℕ) (i k : ℕ)
    → i < length xs
    → take (suc k) (drop i xs) ≡ get_or xs i 0 ∷ take k (drop (suc i) xs)
take-drop-suc [] i k h = elim h [ ]
take-drop-suc (x ∷ xs) zero k h = refl
take-drop-suc (x ∷ xs) (suc i) k h = take-drop-suc xs i k (omega arith)

-- A copy towards the front reads each byte before it is written over.
take-move_loop :
    (k j i : ℕ) (req : List ℕ)
    → j ≤ i
    → i + k ≤ length req
    → take (j + k) (move_loop k j i req) ≡ take j req ++ take k (drop i req)
unfolding move_loop
take-move_loop zero j i req le h =
    ap (λ (n : ℕ). take n req) (omega arith) ∙ sym (append-nil (take j req))
take-move_loop (suc k) j i req le h =
    ap (λ (n : ℕ). take n (move_loop k (j + 1) (i + 1) req')) (omega arith)
    ∙ take-move_loop k (j + 1) (i + 1) req' (omega arith)
        (omega (arith, length-set req j (get_or req i 0)))
    ∙ simp towards_suc (
        rw
          (
            take-set req j (get_or req i 0) (omega arith),
            drop-set req j (suc i) (get_or req i 0) (omega arith),
            take-drop-suc req i k (omega arith),
            append_assoc,
          )
          refl)
  where
    req' : List ℕ
    req' = set req j (get_or req i 0)

-- `move_forward` brings the bytes from `start` on to the front.
pub take-move_forward :
    (req : List ℕ) (start end_next : ℕ)
    → start ≤ end_next
    → end_next ≤ length req
    → take (end_next - start) (move_forward req start end_next)
      ≡ take (end_next - start) (drop start req)
unfolding move_forward
take-move_forward req start end_next le h =
    ap (λ (n : ℕ). take n (move_loop (end_next - start) 0 start req)) (omega arith)
    ∙ take-move_loop (end_next - start) 0 start req (omega arith) (omega arith)

pub take-take : (m n : ℕ) (xs : List ℕ) → m ≤ n → take m (take n xs) ≡ take m xs
take-take zero n xs h = refl
take-take (suc m) zero xs h = elim h [ ]
take-take (suc m) (suc n) [] h = refl
take-take (suc m) (suc n) (x ∷ xs) h = ap (λ (t : List ℕ). x ∷ t) (take-take m n xs (omega arith))

-- The bytes in front of what is written stay.
pub take-overwrite_low :
    (n off : ℕ) (xs ys : List ℕ) → n ≤ off → take n (overwrite xs off ys) ≡ take n xs
unfolding overwrite
take-overwrite_low zero off xs ys h = refl
take-overwrite_low (suc n) zero xs ys h = elim h [ ]
take-overwrite_low (suc n) (suc off) [] ys h = refl
take-overwrite_low (suc n) (suc off) (x ∷ xs) ys h =
    ap (λ (t : List ℕ). x ∷ t) (take-overwrite_low n off xs ys (omega arith))

pub drop-take : (s e : ℕ) (xs : List ℕ) → drop s (take e xs) ≡ take (e - s) (drop s xs)
drop-take zero e xs = ap (λ (n : ℕ). take n xs) (omega arith)
drop-take (suc s) zero xs =
    drop-nil (suc s) ∙ ap (λ (n : ℕ). take n (drop (suc s) xs)) {x = 0} (omega arith)
drop-take (suc s) (suc e) [] = sym (take-nil (suc e - suc s))
drop-take (suc s) (suc e) (x ∷ xs) =
    drop-take s e xs ∙ ap (λ (n : ℕ). take n (drop s xs)) (omega arith)

-- The bytes behind what is written at the front stay.
pub drop-overwrite : (xs ys : List ℕ) → drop (length ys) (overwrite xs 0 ys) ≡ drop (length ys) xs
unfolding overwrite
drop-overwrite [] ys = refl
drop-overwrite (x ∷ xs) [] = refl
drop-overwrite (x ∷ xs) (y ∷ ys) = drop-overwrite xs ys
