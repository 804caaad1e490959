-- ===== src/Net/Transfer.antt =====
-- `readn` and `sendn`.
use nf_server.Prelude.{
  ℕ, zero, suc, ap₂, ◌+◌, ◌-◌, ◌≤◌, ◌<◌, ◌≡◌, refl, sym, ap, ◌∙◌, Option, none, some, List, [], ◌∷◌,
  ◌++◌, append-nil, append_assoc, arith, length, take, drop, length-append, length-drop, take-nil,
  drop-nil, take-length,
}
use nf_server.Prelude.Int.{ℤ, pos, failure}
use nf_server.Net.{eintr, eagain, other, Got, got, failed, Wrote, wrote, refused}

-- The loop of `readn` for `n` bytes, with `nleft` to go and `buf` stored.
readn_loop : ℕ → List Got → ℕ → List ℕ → Option (ℤ × List ℕ)
readn_loop n gs zero buf = some (pos n, buf)
readn_loop n [] (suc m) buf = none
readn_loop n (got [] ∷ gs) (suc m) buf = some (failure, buf)
readn_loop n (got (b ∷ bs) ∷ gs) (suc m) buf = readn_loop n gs (m - length bs) (buf ++ (b ∷ bs))
readn_loop n (failed eagain ∷ gs) (suc m) buf = some (pos (n - suc m), buf)
readn_loop n (failed eintr ∷ gs) (suc m) buf = readn_loop n gs (suc m) buf
readn_loop n (failed other ∷ gs) (suc m) buf = some (failure, buf)

-- The value that `readn` returns and the bytes in `usrbuf`.
pub readn : List Got → ℕ → Option (ℤ × List ℕ)
unfolding readn_loop
readn gs n = readn_loop n gs n []

-- The loop of `sendn` for `n` bytes, with `buf` to go; `out` has been taken by `write`.
sendn_loop : ℕ → List Wrote → List ℕ → List ℕ → Option (ℤ × List ℕ)
sendn_loop n ws [] out = some (pos n, out)
sendn_loop n [] (b ∷ bs) out = none
sendn_loop n (wrote k ∷ ws) (b ∷ bs) out =
    sendn_loop n ws (drop k (b ∷ bs)) (out ++ take k (b ∷ bs))
sendn_loop n (refused eintr ∷ ws) (b ∷ bs) out = sendn_loop n ws (b ∷ bs) out
sendn_loop n (refused eagain ∷ ws) (b ∷ bs) out = some (pos (n - length (b ∷ bs)), out)
sendn_loop n (refused other ∷ ws) (b ∷ bs) out = some (failure, out)

pub sendn : List Wrote → List ℕ → Option (ℤ × List ℕ)
unfolding sendn_loop
sendn ws buf = sendn_loop (length buf) ws buf []

-- Calls of `read` that return bytes or are interrupted, and the bytes.
pub data IsProgress : List Got → List ℕ → Type 0 where
  nothing : IsProgress [] []
  bytes :
      {gs : List Got} {ys : List ℕ} (b : ℕ) (bs : List ℕ)
      → IsProgress gs ys
      → IsProgress (got (b ∷ bs) ∷ gs) ((b ∷ bs) ++ ys)
  interrupted : {gs : List Got} {ys : List ℕ} → IsProgress gs ys → IsProgress (failed eintr ∷ gs) ys

readn_progress :
    (n : ℕ) (hs : List Got) (gs : List Got) (ys : List ℕ) (nleft : ℕ) (buf : List ℕ)
    → IsProgress gs ys
    → length ys ≤ nleft
    → readn_loop n (gs ++ hs) nleft buf ≡ readn_loop n hs (nleft - length ys) (buf ++ ys)
unfolding readn_loop
readn_progress n hs gs ys nleft buf nothing h =
    ap₂ (readn_loop n hs) (omega arith) (sym (append-nil buf))
readn_progress n hs gs ys zero buf (bytes b bs p) h = absurd (omega arith)
readn_progress n hs gs ys (suc m) buf (bytes {gs = gs'} {ys = ys'} b bs p) h =
    let size = length-append bs ys' in
    let step =
      readn_progress n hs gs' ys' (m - length bs) (buf ++ (b ∷ bs)) p (omega (arith, size)) in
    let left : (m - length bs) - length ys' ≡ suc m - suc (length (bs ++ ys')) =
      omega (arith, size) in
    step ∙ ap₂ (readn_loop n hs) left (append_assoc buf (b ∷ bs) ys')
readn_progress n hs gs ys zero buf (interrupted p) h = readn_progress n hs _ ys zero buf p h
readn_progress n hs gs ys (suc m) buf (interrupted p) h = readn_progress n hs _ ys (suc m) buf p h

-- When the calls of `read` before `hs` deliver exactly `n` bytes, whatever the pieces and however often
-- they are interrupted, `readn` returns `n` with those bytes and makes no further call.
readn_full :
    (n : ℕ) (hs gs : List Got) (ys : List ℕ)
    → IsProgress gs ys
    → length ys ≡ n
    → readn (gs ++ hs) n ≡ some (pos n, ys)
unfolding readn readn_loop
readn_full n hs gs ys p e =
    readn_progress n hs gs ys n [] p (omega arith)
    ∙ ap (λ left. readn_loop n hs left ys) {x = n - length ys} {y = 0} (omega arith)

readn_at :
    (n m : ℕ) (hs gs : List Got) (ys : List ℕ)
    → IsProgress gs ys
    → length ys + suc m ≡ n
    → readn (gs ++ hs) n ≡ readn_loop n hs (suc m) ys
unfolding readn
readn_at n m hs gs ys p e =
    readn_progress n hs gs ys n [] p (omega arith)
    ∙ ap (λ left. readn_loop n hs left ys) {x = n - length ys} {y = suc m} (omega arith)

-- When the calls of `read` have delivered fewer than `n` bytes, EAGAIN makes `readn` return their
-- number, but the end of the stream and any other error make it return -1, although the bytes are
-- stored.
pub readn_short :
    (n m : ℕ) (hs gs : List Got) (ys : List ℕ)
    → IsProgress gs ys
    → length ys + suc m ≡ n
    → (readn (gs ++ (failed eagain ∷ hs)) n ≡ some (pos (length ys), ys))
      × (readn (gs ++ (got [] ∷ hs)) n ≡ some (failure, ys))
      × (readn (gs ++ (failed other ∷ hs)) n ≡ some (failure, ys))
unfolding readn_loop
readn_short n m hs gs ys p e = (
  readn_at n m (failed eagain ∷ hs) gs ys p e
      ∙ ap (λ (k : ℕ). some (pos k, ys)) {x = n - suc m} {y = length ys} (omega arith),
  readn_at n m (got [] ∷ hs) gs ys p e,
  readn_at n m (failed other ∷ hs) gs ys p e,
)

-- Calls of `write` that take bytes or are interrupted, and how many bytes they take.
pub data IsTaken : List Wrote → ℕ → Type 0 where
  start : IsTaken [] 0
  took : {ws : List Wrote} {j : ℕ} (k : ℕ) → IsTaken ws j → IsTaken (wrote k ∷ ws) (k + j)
  stalled : {ws : List Wrote} {j : ℕ} → IsTaken ws j → IsTaken (refused eintr ∷ ws) j

drop-add : (a b : ℕ) (xs : List ℕ) → drop b (drop a xs) ≡ drop (a + b) xs
drop-add zero b xs = ap (λ k. drop k xs) {x = b} {y = 0 + b} (omega arith)
drop-add (suc a) b [] = drop-nil b ∙ sym (drop-nil (suc a + b))
drop-add (suc a) b (x ∷ xs) =
    drop-add a b xs ∙ ap (λ k. drop k (x ∷ xs)) {x = suc (a + b)} {y = suc a + b} (omega arith)

take-add : (a b : ℕ) (xs : List ℕ) → take a xs ++ take b (drop a xs) ≡ take (a + b) xs
take-add zero b xs = ap (λ k. take k xs) {x = b} {y = 0 + b} (omega arith)
take-add (suc a) b [] = take-nil b ∙ sym (take-nil (suc a + b))
take-add (suc a) b (x ∷ xs) =
    ap (λ t. x ∷ t) (take-add a b xs)
    ∙ ap (λ k. take k (x ∷ xs)) {x = suc (a + b)} {y = suc a + b} (omega arith)

sendn_done :
    (n : ℕ) (vs : List Wrote) (j : ℕ) (out : List ℕ)
    → some (pos n, out) ≡ sendn_loop n vs (drop j []) (out ++ take j [])
unfolding sendn_loop
sendn_done n vs j out =
    ap₂ (sendn_loop n vs) (sym (drop-nil j))
      (sym (append-nil out) ∙ ap (λ t. out ++ t) (sym (take-nil j)))

sendn_progress :
    (n : ℕ) (vs ws : List Wrote) (j : ℕ) (buf out : List ℕ)
    → IsTaken ws j
    → j ≤ length buf
    → sendn_loop n (ws ++ vs) buf out ≡ sendn_loop n vs (drop j buf) (out ++ take j buf)
unfolding sendn_loop
sendn_progress n vs ws j buf out start h = ap (sendn_loop n vs buf) (sym (append-nil out))
sendn_progress n vs ws j [] out (took {j = i} k t) h = sendn_done n vs (k + i) out
sendn_progress n vs ws j (b ∷ bs) out (took {ws = ws'} {j = i} k t) h =
    sendn_progress n vs ws' i (drop k (b ∷ bs)) (out ++ take k (b ∷ bs)) t
      (omega (arith, length-drop k (b ∷ bs)))
    ∙ ap₂ (sendn_loop n vs) (drop-add k i (b ∷ bs)) (
        append_assoc out (take k (b ∷ bs)) (take i (drop k (b ∷ bs)))
        ∙ ap (λ t. out ++ t) (take-add k i (b ∷ bs)))
sendn_progress n vs ws j [] out (stalled t) h = sendn_done n vs j out
sendn_progress n vs ws j (b ∷ bs) out (stalled {ws = ws'} t) h =
    sendn_progress n vs ws' j (b ∷ bs) out t h

drop-all : (j : ℕ) (xs : List ℕ) → j ≡ length xs → drop j xs ≡ []
drop-all zero [] e = refl
drop-all zero (x ∷ xs) e = absurd (omega arith)
drop-all (suc j) [] e = refl
drop-all (suc j) (x ∷ xs) e = drop-all j xs (omega arith)

-- When the calls of `write` before `vs` take all the bytes, in whatever pieces and however often they are
-- interrupted, `sendn` returns their number, they were taken in order, and it makes no further call.
pub sendn_full :
    (buf : List ℕ) (vs ws : List Wrote) (j : ℕ)
    → IsTaken ws j
    → j ≡ length buf
    → sendn (ws ++ vs) buf ≡ some (pos (length buf), buf)
unfolding sendn sendn_loop
sendn_full buf vs ws j t e =
    sendn_progress (length buf) vs ws j buf [] t (omega arith)
    ∙ ap₂ (sendn_loop (length buf) vs) (drop-all j buf e) (ap (λ k. take k buf) e ∙ take-length buf)

sendn_stops :
    (n : ℕ) (vs : List Wrote) (buf out : List ℕ)
    → 0 < length buf
    → (sendn_loop n (refused eagain ∷ vs) buf out ≡ some (pos (n - length buf), out))
      × (sendn_loop n (refused other ∷ vs) buf out ≡ some (failure, out))
unfolding sendn_loop
sendn_stops n vs [] out h = absurd (omega arith)
sendn_stops n vs (b ∷ bs) out h = (refl, refl)

-- When the calls of `write` have taken the first `j` bytes and there are more, EAGAIN makes `sendn`
-- return `j`, and any other error but EINTR makes it return -1.
pub sendn_short :
    (buf : List ℕ) (vs ws : List Wrote) (j : ℕ)
    → IsTaken ws j
    → j < length buf
    → (sendn (ws ++ (refused eagain ∷ vs)) buf ≡ some (pos j, take j buf))
      × (sendn (ws ++ (refused other ∷ vs)) buf ≡ some (failure, take j buf))
unfolding sendn
sendn_short buf vs ws j t h =
    let n = length buf in
    let rest = drop j buf in
    let more : 0 < length rest = omega (arith, length-drop j buf) in
    (
      sendn_progress n (refused eagain ∷ vs) ws j buf [] t (omega arith)
          ∙ (sendn_stops n vs rest (take j buf) more).0
          ∙ ap (λ (k : ℕ). some (pos k, take j buf)) {x = n - length rest} {y = j}
              (omega (arith, length-drop j buf)),
      sendn_progress n (refused other ∷ vs) ws j buf [] t (omega arith)
          ∙ (sendn_stops n vs rest (take j buf) more).1,
    )
