-- ===== src/AsynLog/Lines.antt =====
-- The line that `produce_log` builds, as it is written.
use nf_server.Prelude.{
  ℕ, zero, suc, ◌+◌, ◌≤◌, ◌<◌, ◌≡◌, ◌≢◌, refl, sym, ap, ◌∙◌, inl, inr, Bool-cases, Bool, true,
  false, [], ◌∷◌, ◌++◌, append_assoc, ◌==◌, beq_ne, if◌then◌else◌, length, take, drop, replicate,
  length-append, length-replicate, take-append_length, arith,
}
use nf_server.Config.{Bytes}
use nf_server.Buffer.{done, out_of_bounds, memcpy, overwrite}
use nf_server.Buffer.Bytes.{
  length-overwrite, take-overwrite, memcpy-done, take-take, memcpy-out_of_bounds,
}
use nf_server.AsynLog.{
  Level, debug, notice, warn, error, log_maxline, str_prefix, c_str, add_prefix, ctime, format,
}

-- No byte is 0.
pub data NoZero : Bytes → Type 0 where
  nothing : NoZero []
  byte : {cs : Bytes} (c : ℕ) → c ≢ 0 → NoZero cs → NoZero (c ∷ cs)

c_str-append : (xs ys : Bytes) → NoZero xs → c_str (xs ++ (0 ∷ ys)) ≡ xs
unfolding c_str
c_str-append [] ys nothing = refl
c_str-append (_ ∷ xs) ys (byte c h z) = rw (beq_ne c 0 h, c_str-append xs ys z) refl

-- The bytes up to `n`, then a 0.
c_str-take : (n : ℕ) (line xs : Bytes) → take n line ≡ xs ++ (0 ∷ []) → NoZero xs → c_str line ≡ xs
c_str-take n line xs e z =
    ap c_str (
      sym (take-drop n line)
      ∙ ap (λ t. t ++ drop n line) e
      ∙ append_assoc xs (0 ∷ []) (drop n line))
    ∙ c_str-append xs (drop n line) z
  where
    take-drop : (n : ℕ) (xs : Bytes) → take n xs ++ drop n xs ≡ xs
    take-drop zero xs = refl
    take-drop (suc n) [] = refl
    take-drop (suc n) (x ∷ xs) = ap (λ t. x ∷ t) (take-drop n xs)

-- The string after each call.
abbrev blank : Bytes
blank = replicate (log_maxline + 1) 0

abbrev line1 : Level → Bytes
line1 event = overwrite blank 0 (str_prefix event)

abbrev line2 : Level → Bytes → Bytes
line2 event time = overwrite (line1 event) 9 (time ++ (0 ∷ []))

abbrev line3 : Level → Bytes → Bytes
line3 event time = overwrite (line2 event time) 23 (b' ' ∷ b' ' ∷ [])

abbrev line4 : Level → Bytes → Bytes → Bytes
line4 event time message = overwrite (line3 event time) 25 (message ++ (0 ∷ []))

length-blank : length blank ≡ 1025
length-blank = length-replicate {A = ℕ} 1025 0

take_9_of : (xs : Bytes) → length xs ≡ 10 → take 9 (overwrite blank 0 xs) ≡ take 9 xs
take_9_of xs h =
    let front = take-overwrite blank 0 xs (omega (arith, h, length-blank)) in
    let size : 0 + length xs ≡ 10 = omega (arith, h) in
    sym (take-take 9 10 (overwrite blank 0 xs) (omega arith))
    ∙ ap (take 9) (ap (λ n. take n (overwrite blank 0 xs)) (sym size) ∙ front)

take_9 : (event : Level) → take 9 (line1 event) ≡ take 9 (str_prefix event)
take_9 debug = take_9_of (str_prefix debug) refl
take_9 notice = take_9_of (str_prefix notice) refl
take_9 warn = take_9_of (str_prefix warn) refl
take_9 error = take_9_of (str_prefix error) refl

-- The line before the message.
abbrev pub head : Level → Bytes → Bytes
head event time = take 9 (str_prefix event) ++ (time ++ (b' ' ∷ b' ' ∷ []))

length-take_9 : (event : Level) → length (take 9 (str_prefix event)) ≡ 9
length-take_9 debug = refl
length-take_9 notice = refl
length-take_9 warn = refl
length-take_9 error = refl

length-line1 : (event : Level) → length (line1 event) ≡ 1025
length-line1 event = length-overwrite blank 0 (str_prefix event) ∙ length-blank

length-line2 : (event : Level) (time : Bytes) → length (line2 event time) ≡ 1025
length-line2 event time = length-overwrite (line1 event) 9 (time ++ (0 ∷ [])) ∙ length-line1 event

take_23 :
    (event : Level) (time : Bytes)
    → length time ≡ 14
    → take 23 (line2 event time) ≡ take 9 (str_prefix event) ++ time
take_23 event time h =
    let front =
      take-overwrite (line1 event) 9 (time ++ (0 ∷ []))
        (omega (arith, h, length-append time (0 ∷ []), length-line1 event)) in
    let size : 9 + length (time ++ (0 ∷ [])) ≡ 24 = omega (arith, h, length-append time (0 ∷ [])) in
    let xs = take 9 (str_prefix event) ++ time in
    let short : length xs ≡ 23 =
      omega (arith, h, length-append (take 9 (str_prefix event)) time, length-take_9 event) in
    sym (take-take 23 24 (line2 event time) (omega arith))
    ∙ ap (take 23) (
        ap (λ n. take n (line2 event time)) (sym size)
        ∙ front
        ∙ ap (λ t. t ++ (time ++ (0 ∷ []))) (take_9 event)
        ∙ sym (append_assoc (take 9 (str_prefix event)) time (0 ∷ [])))
    ∙ ap (λ n. take n (xs ++ (0 ∷ []))) (sym short)
    ∙ take-append_length xs (0 ∷ [])

length-line3 : (event : Level) (time : Bytes) → length (line3 event time) ≡ 1025
length-line3 event time =
    length-overwrite (line2 event time) 23 (b' ' ∷ b' ' ∷ []) ∙ length-line2 event time

take_25 :
    (event : Level) (time : Bytes) → length time ≡ 14 → take 25 (line3 event time) ≡ head event time
take_25 event time h =
    take-overwrite (line2 event time) 23 (b' ' ∷ b' ' ∷ []) (omega (arith, length-line2 event time))
    ∙ ap (λ t. t ++ (b' ' ∷ b' ' ∷ [])) (take_23 event time h)
    ∙ append_assoc (take 9 (str_prefix event)) time (b' ' ∷ b' ' ∷ [])

take-all : (n : ℕ) (xs : Bytes) → length xs ≤ n → take n xs ≡ xs
take-all zero [] h = refl
take-all zero (x ∷ xs) h = absurd (omega arith)
take-all (suc n) [] h = refl
take-all (suc n) (x ∷ xs) h = ap (λ t. x ∷ t) (take-all n xs (omega arith))

whole : (event : Level) → c_str (str_prefix event) ≡ str_prefix event
unfolding c_str
whole debug = refl
whole notice = refl
whole warn = refl
whole error = refl

length-str_prefix : (event : Level) → length (str_prefix event) ≡ 10
length-str_prefix debug = refl
length-str_prefix notice = refl
length-str_prefix warn = refl
length-str_prefix error = refl

-- The string with the message still to come.
format-head :
    (event : Level) (time message : Bytes)
    → length time ≡ 14
    → format event time message ≡ memcpy (line3 event time) 25 (message ++ (0 ∷ []))
unfolding format add_prefix ctime
format-head event time message h =
    rw
      (
        format,
        add_prefix,
        whole event,
        memcpy-done blank 0 (str_prefix event)
            (omega (arith, length-blank, length-str_prefix event)),
        ctime,
        take-all 19 time (omega (arith, h)),
        memcpy-done (line1 event) 9 (time ++ (0 ∷ []))
            (omega (arith, h, length-append time (0 ∷ []), length-line1 event)),
        memcpy-done (line2 event time) 23 (b' ' ∷ b' ' ∷ [])
            (omega (arith, length-line2 event time)),
      )
      refl

NoZero-append : (xs ys : Bytes) → NoZero xs → NoZero ys → NoZero (xs ++ ys)
NoZero-append [] ys nothing z = z
NoZero-append (_ ∷ xs) ys (byte c h w) z = byte c h (NoZero-append xs ys w z)

unfoldable pub clean : Bytes → Bool
clean [] = true
clean (c ∷ cs) = let rest = clean cs in if c == 0 then false else rest

pub clean→NoZero : (xs : Bytes) → clean xs ≡ true → NoZero xs
unfolding clean
clean→NoZero [] e = nothing
clean→NoZero (c ∷ cs) e = elim (Bool-cases (c == 0)) [
  | inl zero_byte ↦ (let no : false ≡ true = rw zero_byte at e in absurd cc)
  | inr other ↦ byte c (λ same. absurd (ground (arith, same))) (clean→NoZero cs (rw other at e))
]

head-NoZero : (event : Level) (time : Bytes) → NoZero time → NoZero (head event time)
unfolding clean
head-NoZero event time z =
    NoZero-append (take 9 (str_prefix event)) (time ++ (b' ' ∷ b' ' ∷ [])) (prefix event)
      (NoZero-append time (b' ' ∷ b' ' ∷ []) z (clean→NoZero (b' ' ∷ b' ' ∷ []) refl))
  where
    prefix : (event : Level) → NoZero (take 9 (str_prefix event))
    prefix debug = clean→NoZero (take 9 (str_prefix debug)) refl
    prefix notice = clean→NoZero (take 9 (str_prefix notice)) refl
    prefix warn = clean→NoZero (take 9 (str_prefix warn)) refl
    prefix error = clean→NoZero (take 9 (str_prefix error)) refl

-- The time of day takes 14 bytes. A message of at most 999 bytes without a 0 is written after the first 9
-- bytes of the prefix, the time and two blanks; a longer one goes past the 0 that
-- ends the string.
pub format_lem :
    (event : Level) (time message long : Bytes)
    → length time ≡ 14
    → NoZero time
    → NoZero message
    → length message ≤ 999
    → 999 < length long
    → ((line : Bytes) × (format event time message ≡ done line)
        × (c_str line ≡ take 9 (str_prefix event) ++ (time ++ (b' ' ∷ b' ' ∷ [])) ++ message))
      × (format event time long ≡ out_of_bounds)
format_lem event time message long h tz mz le gt = (
  (
    line4 event time message,
    format-head event time message h
        ∙ memcpy-done (line3 event time) 25 (message ++ (0 ∷ []))
            (omega (arith, le, length-append message (0 ∷ []), length-line3 event time)),
    c_str-take (25 + length (message ++ (0 ∷ []))) (line4 event time message)
        (head event time ++ message)
        (take-overwrite (line3 event time) 25 (message ++ (0 ∷ []))
            (omega (arith, le, length-append message (0 ∷ []), length-line3 event time))
          ∙ ap (λ t. t ++ (message ++ (0 ∷ []))) (take_25 event time h)
          ∙ sym (append_assoc (head event time) message (0 ∷ [])))
        (NoZero-append (head event time) message (head-NoZero event time tz) mz),
  ),
  format-head event time long h
      ∙ memcpy-out_of_bounds (line3 event time) 25 (long ++ (0 ∷ []))
          (omega (arith, gt, length-append long (0 ∷ []), length-line3 event time)),
)
