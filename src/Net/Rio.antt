-- ===== src/Net/Rio.antt =====
-- `rio_read` and `rio_readline`: the reader with a buffer. Its state is the list of the `rio_cnt` bytes
-- from `rio_bufptr` on; a `rio_cnt` of -1, which a failed `read` leaves, counts as no bytes.
pub mod Count
use nf_server.Prelude.{
  ℕ, zero, suc, ◌+◌, ◌-◌, ◌≡◌, ◌≢◌, refl, sym, ap, ap₂, ◌∙◌, Option, none, some, List, [], ◌∷◌,
  ◌++◌, append_assoc, append-nil, arith, ◌==◌, if◌then◌else◌, length, take, drop, beq_ne,
}
use nf_server.Prelude.Int.{ℤ, pos, negsuc, failure}
use nf_server.Net.{eintr, eagain, other, Got, got, failed}
use nf_server.Net.Transfer.{IsProgress, nothing, bytes, interrupted}

-- What `rio_read` returns with the bytes it stores, then the buffer and the calls to come.
rio_read : List Got → List ℕ → ℕ → Option (Got × List ℕ × List Got)
rio_read gs (b ∷ bs) n = some (got (take n (b ∷ bs)), drop n (b ∷ bs), gs)
rio_read [] [] n = none
rio_read (got [] ∷ gs) [] n = some (got [], [], gs)
rio_read (got (b ∷ bs) ∷ gs) [] n = some (got (take n (b ∷ bs)), drop n (b ∷ bs), gs)
rio_read (failed eintr ∷ gs) [] n = rio_read gs [] n
rio_read (failed eagain ∷ gs) [] n = some (failed eagain, [], gs)
rio_read (failed other ∷ gs) [] n = some (failed other, [], gs)

-- What `rio_readline` returns, `*st`, the bytes in `usrbuf`, and the reader afterwards.
pub record Line : Type 0 where
  pub ret : ℤ
  pub st : ℤ
  pub usrbuf : List ℕ
  pub buffered : List ℕ
  pub script : List Got

abbrev newline : ℕ
newline = 10

-- The body of the loop with what `rio_read` returned; `next` goes on.
readline_body :
    (ℕ → List ℕ → List Got → Option Line)
    → ℕ
    → List ℕ
    → Option (Got × List ℕ × List Got)
    → Option Line
readline_body next i buf none = none
readline_body next i buf (some (got [], b, gs)) =
    some (record { ret = pos 0; st = pos 1; usrbuf = buf; buffered = b; script = gs })
readline_body next i buf (some (got (c ∷ cs), b, gs)) =
    if c == newline
    then some (record {
      ret = pos i;
      st = pos 1;
      usrbuf = buf ++ (c ∷ 0 ∷ []);
      buffered = b;
      script = gs;
    })
    else next c b gs
readline_body next i buf (some (failed eagain, b, gs)) =
    some
      (record { ret = pos i; st = negsuc 0; usrbuf = buf ++ (0 ∷ []); buffered = b; script = gs })
readline_body next i buf (some (failed e, b, gs)) =
    some (record { ret = failure; st = pos 1; usrbuf = buf; buffered = b; script = gs })

-- The loop with `k` rounds to go.
readline_loop : ℕ → ℕ → List Got → List ℕ → List ℕ → Option Line
unfolding rio_read readline_body
readline_loop zero i gs b buf =
    some (record { ret = pos i; st = pos 1; usrbuf = buf ++ (0 ∷ []); buffered = b; script = gs })
readline_loop (suc k) i gs b buf =
    readline_body (λ c b' gs'. readline_loop k (suc i) gs' b' (buf ++ (c ∷ []))) i buf
      (rio_read gs b 1)

pub rio_readline : List Got → List ℕ → ℕ → Option Line
unfolding readline_loop
rio_readline gs b maxlen = readline_loop (maxlen - 1) 1 gs b []

head_or : ℕ → List ℕ → ℕ
head_or d [] = d
head_or d (x ∷ xs) = x

-- The buffer with the bytes that the calls before `hs` deliver is `s`.
unfoldable pub Supplies : List Got → List Got → List ℕ → List ℕ → Type 0
Supplies hs gs b s =
    (before : List Got) × (ys : List ℕ) × (gs ≡ before ++ hs) × IsProgress before ys × (b ++ ys ≡ s)

rio_read_refill :
    (hs gs : List Got) (ys : List ℕ) (c : ℕ) (s : List ℕ)
    → IsProgress gs ys
    → ys ≡ c ∷ s
    → (b' : List ℕ) × (gs' : List Got) × (rio_read (gs ++ hs) [] 1 ≡ some (got (c ∷ []), b', gs'))
      × Supplies hs gs' b' s
unfolding rio_read head_or Supplies
rio_read_refill hs gs ys c s nothing e = absurd (omega (arith, ap length e))
rio_read_refill hs gs ys c s (bytes {gs = gs'} {ys = ys'} b bs p) e = (
  bs,
  gs' ++ hs,
  ap (λ x. some (got (x ∷ []), bs, gs' ++ hs)) (ap (head_or 0) e),
  (gs', ys', refl, p, ap (drop 1) e),
)
rio_read_refill hs gs ys c s (interrupted {gs = gs'} p) e = rio_read_refill hs gs' ys c s p e

rio_read_one :
    (hs gs : List Got) (b : List ℕ) (c : ℕ) (s : List ℕ)
    → Supplies hs gs b (c ∷ s)
    → (b' : List ℕ) × (gs' : List Got) × (rio_read gs b 1 ≡ some (got (c ∷ []), b', gs'))
      × Supplies hs gs' b' s
unfolding Supplies rio_read head_or
rio_read_one hs gs [] c s (before, ys, at, p, e) =
    let r = rio_read_refill hs before ys c s p e in
    (r.0, r.1, ap (λ g. rio_read g [] 1) at ∙ r.2, r.3)
rio_read_one hs gs (x ∷ xs) c s (before, ys, at, p, e) = (
  xs,
  gs,
  ap (λ x. some (got (x ∷ []), xs, gs)) (ap (head_or 0) e),
  (before, ys, at, p, ap (drop 1) e),
)

-- Bytes with no newline among them.
pub data IsText : List ℕ → Type 0 where
  no_text : IsText []
  text : {xs : List ℕ} (c : ℕ) → c ≢ 10 → IsText xs → IsText (c ∷ xs)

round_text :
    (k i : ℕ) (gs gs' : List Got) (b b' buf : List ℕ) (c : ℕ)
    → c ≢ 10
    → rio_read gs b 1 ≡ some (got (c ∷ []), b', gs')
    → readline_loop (suc k) i gs b buf ≡ readline_loop k (suc i) gs' b' (buf ++ (c ∷ []))
unfolding readline_loop readline_body
round_text k i gs gs' b b' buf c ne e =
    ap (readline_body (λ c b' gs'. readline_loop k (suc i) gs' b' (buf ++ (c ∷ []))) i buf) e
    ∙ ap
        (λ t.
          if t
          then some (record {
            ret = pos i;
            st = pos 1;
            usrbuf = buf ++ (c ∷ 0 ∷ []);
            buffered = b';
            script = gs';
          })
          else readline_loop k (suc i) gs' b' (buf ++ (c ∷ [])))
        (beq_ne c newline ne)

round_newline :
    (k i : ℕ) (gs gs' : List Got) (b b' buf : List ℕ)
    → rio_read gs b 1 ≡ some (got (10 ∷ []), b', gs')
    → readline_loop (suc k) i gs b buf
      ≡ some (record {
        ret = pos i;
        st = pos 1;
        usrbuf = buf ++ (10 ∷ 0 ∷ []);
        buffered = b';
        script = gs';
      })
unfolding readline_loop readline_body
round_newline k i gs gs' b b' buf e =
    ap (readline_body (λ c b' gs'. readline_loop k (suc i) gs' b' (buf ++ (c ∷ []))) i buf) e

-- After the text the loop is where the bytes `s` are to come.
readline_text :
    (hs : List Got) (xs s : List ℕ) (k i : ℕ) (gs : List Got) (b buf : List ℕ)
    → IsText xs
    → Supplies hs gs b (xs ++ s)
    → (b' : List ℕ) × (gs' : List Got) × (readline_loop (length xs + k) i gs b buf
        ≡ readline_loop k (length xs + i) gs' b' (buf ++ xs))
      × Supplies hs gs' b' s
readline_text hs xs s k i gs b buf no_text d =
    (b, gs, cong₃ (omega arith) (omega arith) (sym (append-nil buf)), d)
  where
    cong₃ :
        {k₁ k₂ i₁ i₂ : ℕ} {buf₁ buf₂ : List ℕ}
        → k₁ ≡ k₂
        → i₁ ≡ i₂
        → buf₁ ≡ buf₂
        → readline_loop k₁ i₁ gs b buf₁ ≡ readline_loop k₂ i₂ gs b buf₂
    cong₃ p q r = rw (p, q, r) refl
readline_text hs xs s k i gs b buf (text {xs = xs'} c ne t) d =
    let one = rio_read_one hs gs b c (xs' ++ s) d in
    let more = readline_text hs xs' s k (suc i) one.1 one.0 (buf ++ (c ∷ [])) t one.3 in
    (
      more.0,
      more.1,
      ap (λ n. readline_loop n i gs b buf) {x = suc (length xs') + k} {y = suc (length xs' + k)}
            (omega arith)
          ∙ round_text (length xs' + k) i gs one.1 b one.0 buf c ne one.2
          ∙ more.2
          ∙ ap₂ (λ n t. readline_loop k n more.1 more.0 t) {x = length xs' + suc i}
              {y = suc (length xs') + i} (omega arith) (append_assoc buf (c ∷ []) xs'),
      more.3,
    )

-- When the buffer and the calls before `hs` supply a line of at most `maxlen - 1` bytes, its newline
-- included, `rio_readline` stores it with a NUL and returns its length, and the reader still supplies
-- what follows the line.
pub rio_readline_line :
    (hs gs : List Got) (b xs s : List ℕ) (k : ℕ)
    → IsText xs
    → Supplies hs gs b (xs ++ (10 ∷ s))
    → (b' : List ℕ) × (gs' : List Got) × (rio_readline gs b (length xs + suc (suc k))
        ≡ some (record {
          ret = pos (length xs + 1);
          st = pos 1;
          usrbuf = xs ++ (10 ∷ 0 ∷ []);
          buffered = b';
          script = gs';
        }))
      × Supplies hs gs' b' s
unfolding rio_readline
rio_readline_line hs gs b xs s k t d =
    let run = readline_text hs xs (10 ∷ s) (suc k) 1 gs b [] t d in
    let one = rio_read_one hs run.1 run.0 10 s run.3 in
    (
      one.0,
      one.1,
      ap (λ n. readline_loop n 1 gs b []) {x = (length xs + suc (suc k)) - 1}
            {y = length xs + suc k} (omega arith)
          ∙ run.2
          ∙ round_newline k (length xs + 1) run.1 one.1 run.0 one.0 xs one.2,
      one.3,
    )

-- When the next `maxlen - 1` bytes have no newline among them, `rio_readline` stores them with a NUL and
-- returns `maxlen`, one more than the number of the bytes; the reader still supplies what follows.
rio_readline_long :
    (hs gs : List Got) (b xs s : List ℕ)
    → IsText xs
    → Supplies hs gs b (xs ++ s)
    → (b' : List ℕ) × (gs' : List Got) × (rio_readline gs b (length xs + 1)
        ≡ some (record {
          ret = pos (length xs + 1);
          st = pos 1;
          usrbuf = xs ++ (0 ∷ []);
          buffered = b';
          script = gs';
        }))
      × Supplies hs gs' b' s
unfolding rio_readline readline_loop
rio_readline_long hs gs b xs s t d =
    let run = readline_text hs xs s 0 1 gs b [] t d in
    (
      run.0,
      run.1,
      ap (λ n. readline_loop n 1 gs b []) {x = (length xs + 1) - 1} {y = length xs + 0}
            (omega arith)
          ∙ run.2,
      run.3,
    )
