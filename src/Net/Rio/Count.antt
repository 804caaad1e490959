-- ===== src/Net/Rio/Count.antt =====
-- `rio_readn`, which reads a number of bytes through the buffer.
use nf_server.Prelude.{
  ℕ, zero, suc, ◌+◌, ◌-◌, ◌≤◌, ◌<◌, ◌≡◌, refl, sym, ap, subst, ◌∙◌, Option, none, some, List, [],
  ◌∷◌, ◌++◌, append_assoc, append-nil, arith, length, length-append, take, drop,
}
use nf_server.Prelude.Int.{pos, negsuc, failure}
use nf_server.Net.{eintr, eagain, other, Got, got, failed}
use nf_server.Net.Transfer.{IsProgress, nothing, bytes, interrupted}
use nf_server.Net.Rio.{rio_read, Line, Supplies}

-- The body of the loop with what `rio_read` returned, `done` bytes read so far; `next` goes on.
readn_body :
    (List ℕ → List ℕ → List Got → Option Line)
    → ℕ
    → List ℕ
    → Option (Got × List ℕ × List Got)
    → Option Line
readn_body next done buf none = none
readn_body next done buf (some (got [], b, gs)) =
    some (record { ret = pos done; st = pos 1; usrbuf = buf; buffered = b; script = gs })
readn_body next done buf (some (got (c ∷ cs), b, gs)) = next (c ∷ cs) b gs
readn_body next done buf (some (failed eagain, b, gs)) =
    some (record { ret = pos done; st = negsuc 0; usrbuf = buf; buffered = b; script = gs })
readn_body next done buf (some (failed eintr, b, gs)) = next [] b gs
readn_body next done buf (some (failed other, b, gs)) =
    some (record { ret = failure; st = pos 1; usrbuf = buf; buffered = b; script = gs })

-- The loop for `n` bytes with `nleft` to go and at most `k` rounds.
rio_readn_loop : ℕ → ℕ → ℕ → List Got → List ℕ → List ℕ → Option Line
unfolding readn_body
rio_readn_loop k n zero gs b buf =
    some (record { ret = pos n; st = pos 1; usrbuf = buf; buffered = b; script = gs })
rio_readn_loop zero n (suc m) gs b buf = none
rio_readn_loop (suc k) n (suc m) gs b buf =
    readn_body (λ ys b' gs'. rio_readn_loop k n (suc m - length ys) gs' b' (buf ++ ys)) (n - suc m)
      buf (rio_read gs b (suc m))

-- Each round that does not end the loop reads a byte, since `rio_read` returns no EINTR: `n` rounds do.
pub rio_readn : List Got → List ℕ → ℕ → Option Line
unfolding rio_readn_loop
rio_readn gs b n = rio_readn_loop n n n gs b []

take-drop : (n : ℕ) (xs : List ℕ) → take n xs ++ drop n xs ≡ xs
take-drop zero xs = refl
take-drop (suc n) [] = refl
take-drop (suc n) (x ∷ xs) = ap (λ t. x ∷ t) (take-drop n xs)

-- What `rio_read` gives where bytes are to come: some of them, no more than asked for.
ReadSome : List Got → List ℕ → ℕ → Option (Got × List ℕ × List Got) → Type 0
ReadSome hs s m o =
    (y : ℕ) × (ys : List ℕ) × (b : List ℕ) × (gs : List Got) × (s' : List ℕ) × (o
      ≡ some (got (y ∷ ys), b, gs))
    × Supplies hs gs b s'
    × (s ≡ (y ∷ ys) ++ s')
    × (length ys ≤ m)

length-take_le : (n : ℕ) (xs : List ℕ) → length (take n xs) ≤ n
length-take_le zero xs = omega arith
length-take_le (suc n) [] = omega arith
length-take_le (suc n) (x ∷ xs) = omega (arith, length-take_le n xs)

rio_read_buffered :
    (hs gs : List Got) (x : ℕ) (xs s : List ℕ) (m : ℕ)
    → Supplies hs gs (x ∷ xs) s
    → ReadSome hs s m (rio_read gs (x ∷ xs) (suc m))
unfolding rio_read Supplies ReadSome
rio_read_buffered hs gs x xs s m (before, ys, at, p, e) = (
  x,
  take m xs,
  drop m xs,
  gs,
  drop m xs ++ ys,
  refl,
  (before, ys, at, p, refl),
  sym e
      ∙ ap (λ t. x ∷ (t ++ ys)) (sym (take-drop m xs))
      ∙ ap (λ t. x ∷ t) (append_assoc (take m xs) (drop m xs) ys),
  length-take_le m xs,
)

rio_read_fresh :
    (hs gs : List Got) (ys : List ℕ) (m : ℕ)
    → IsProgress gs ys
    → 0 < length ys
    → ReadSome hs ys m (rio_read (gs ++ hs) [] (suc m))
unfolding rio_read Supplies ReadSome
rio_read_fresh hs gs ys m nothing h = absurd (omega arith)
rio_read_fresh hs gs ys m (bytes {gs = gs'} {ys = ys'} b bs p) h = (
  b,
  take m bs,
  drop m bs,
  gs' ++ hs,
  drop m bs ++ ys',
  refl,
  (gs', ys', refl, p, refl),
  ap (λ t. b ∷ (t ++ ys')) (sym (take-drop m bs))
      ∙ ap (λ t. b ∷ t) (append_assoc (take m bs) (drop m bs) ys'),
  length-take_le m bs,
)
rio_read_fresh hs gs ys m (interrupted {gs = gs'} p) h = rio_read_fresh hs gs' ys m p h

rio_read_some :
    (hs gs : List Got) (b s : List ℕ) (m : ℕ)
    → Supplies hs gs b s
    → 0 < length s
    → ReadSome hs s m (rio_read gs b (suc m))
unfolding Supplies
rio_read_some hs gs [] s m (before, ys, at, p, e) h =
    subst (λ t. ReadSome hs t m (rio_read gs [] (suc m))) e
      (subst (λ g. ReadSome hs ys m (rio_read g [] (suc m))) (sym at)
        (rio_read_fresh hs before ys m p (omega (arith, h, ap length e))))
rio_read_some hs gs (x ∷ xs) s m supply h = rio_read_buffered hs gs x xs s m supply

take-append_more :
    (n : ℕ) (xs ys : List ℕ) → length xs ≤ n → take n (xs ++ ys) ≡ xs ++ take (n - length xs) ys
take-append_more n [] ys h = ap (λ k. take k ys) (omega arith)
take-append_more zero (x ∷ xs) ys h = absurd (omega arith)
take-append_more (suc n) (x ∷ xs) ys h =
    ap (λ t. x ∷ t) (take-append_more n xs ys (omega arith))
    ∙ ap (λ k. x ∷ (xs ++ take k ys)) {x = n - length xs} {y = suc n - suc (length xs)}
        (omega arith)

drop-append_more :
    (n : ℕ) (xs ys : List ℕ) → length xs ≤ n → drop n (xs ++ ys) ≡ drop (n - length xs) ys
drop-append_more n [] ys h = ap (λ k. drop k ys) (omega arith)
drop-append_more zero (x ∷ xs) ys h = absurd (omega arith)
drop-append_more (suc n) (x ∷ xs) ys h =
    drop-append_more n xs ys (omega arith)
    ∙ ap (λ k. drop k ys) {x = n - length xs} {y = suc n - suc (length xs)} (omega arith)

-- The loop's result, with `buf` stored before and `s` still to come.
ReadAll : List Got → ℕ → ℕ → List ℕ → List ℕ → Option Line → Type 0
ReadAll hs n nleft buf s o =
    (b : List ℕ) × (gs : List Got) × (o
      ≡ some (record {
        ret = pos n;
        st = pos 1;
        usrbuf = buf ++ take nleft s;
        buffered = b;
        script = gs;
      }))
    × Supplies hs gs b (drop nleft s)

rio_readn_loop_lem :
    (k n nleft : ℕ) (hs gs : List Got) (b buf s : List ℕ)
    → Supplies hs gs b s
    → nleft ≤ k
    → nleft ≤ length s
    → ReadAll hs n nleft buf s (rio_readn_loop k n nleft gs b buf)
unfolding rio_readn_loop readn_body ReadSome ReadAll
rio_readn_loop_lem k n zero hs gs b buf s supply h le = (
  b,
  gs,
  ap (λ u. some (record { ret = pos n; st = pos 1; usrbuf = u; buffered = b; script = gs }))
      (sym (append-nil buf)),
  supply,
)
rio_readn_loop_lem zero n (suc m) hs gs b buf s supply h le = absurd (omega arith)
rio_readn_loop_lem (suc k) n (suc m) hs gs b buf s supply h le =
    let (y, ys, b', gs', s', run, supply', split, few) =
      rio_read_some hs gs b s m supply (omega (arith, le)) in
    let size : length s ≡ suc (length ys) + length s' =
      ap length split ∙ length-append (y ∷ ys) s' in
    let (c, hs', again, rest) =
      rio_readn_loop_lem k n (suc m - suc (length ys)) hs gs' b' (buf ++ (y ∷ ys)) s' supply'
        (omega (arith, h)) (omega (arith, size, le)) in
    (
      c,
      hs',
      rw (rio_readn_loop, run) again
          ∙ ap
              (λ u.
                some (record { ret = pos n; st = pos 1; usrbuf = u; buffered = c; script = hs' }))
              (append_assoc buf (y ∷ ys) (take (suc m - suc (length ys)) s')
                ∙ ap (λ t. buf ++ t)
                    (sym (
                      ap (take (suc m)) split
                      ∙ take-append_more (suc m) (y ∷ ys) s' (omega (arith, few))))),
      subst (λ t. Supplies hs hs' c t)
          (sym
            (ap (drop (suc m)) split ∙ drop-append_more (suc m) (y ∷ ys) s' (omega (arith, few))))
          rest,
    )

-- Where the buffer and the calls of `read` before `hs` have `s`, `n` bytes or more, in whatever pieces
-- and however often interrupted, `rio_readn` ends with `n` and the first `n` of them, and leaves the reader
-- at the others.
rio_readn_lem :
    (n : ℕ) (hs gs : List Got) (b s : List ℕ)
    → Supplies hs gs b s
    → n ≤ length s
    → (b' : List ℕ) × (gs' : List Got) × (rio_readn gs b n
        ≡ some (record { ret = pos n; st = pos 1; usrbuf = take n s; buffered = b'; script = gs' }))
      × Supplies hs gs' b' (drop n s)
unfolding rio_readn ReadAll
rio_readn_lem n hs gs b s supply le = rio_readn_loop_lem n n n hs gs b [] s supply (omega arith) le
