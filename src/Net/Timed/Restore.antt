-- ===== src/Net/Timed/Restore.antt =====
-- `readn_to_ms` and `sendn_to_ms` end, and put the socket back as it was.
use nf_server.Prelude.{
  ℕ, zero, suc, ◌+◌, ◌≤◌, ◌<◌, ◌≡◌, ◌⊎◌, refl, ap, inl, inr, Bool, true, false, ◌&&◌, Bool-cases,
  Option, some, List, [], ◌∷◌, ◌++◌, ◌==◌, ltb, length, length-append, arith,
}
use nf_server.Prelude.Int.{ℤ, pos, negsuc, failure, ltb_ℤ}
use nf_server.Timer.{Timeval}
use nf_server.Net.{eintr, eagain, other, Got, got, failed}
use nf_server.Net.Timed.{
  Socket, Round, Script, int_max, timeuse, time_left, of_msecs, received, End, value, read_answer,
  read_rounds, read_restore, read_waiting, read_wait, readn_first, readn_to_ms,
}

-- In each round `setsockopt` succeeds and a call is not interrupted.
pub data AreAnswered {A : Type 0} (answer : List A → Option A) : List (Round A) → Type 0 where
  nothing : AreAnswered answer []
  round :
      {rs : List (Round A)} (r : Round A) (a : A)
      → r.set_ok ≡ true
      → answer r.calls ≡ some a
      → AreAnswered answer rs
      → AreAnswered answer (r ∷ rs)

-- A value above 0 is the number asked for, or more, and the bytes went over.
abbrev pub IsResult : ℕ → ℤ → List ℕ → Type 0
IsResult nbytes n buf =
    (n ≡ failure) ⊎ ((n ≡ pos 0) ⊎ ((n ≡ pos (length buf)) × (nbytes ≤ length buf)))

-- Where the loop of `readn_to_ms` can end: only the timeout for reading differs.
abbrev ReadEnd : ℕ → Socket → Option End → Type 0
ReadEnd nbytes s o =
    (n : ℤ) × (buf : List ℕ) × (t : Timeval) × (o ≡ some (value n buf (record s { rcvtimeo = t })))
    × IsResult nbytes n buf

read_answer_lem :
    (nbytes msecs : ℕ) (used : ℤ) (buf : List ℕ) (s : Socket) (t : Timeval)
    (more : List ℕ → Option End) (g : Got)
    → ((buf' : List ℕ)
        → length buf < length buf'
        → length buf' < nbytes
        → ReadEnd nbytes s (more buf'))
    → ReadEnd nbytes s (read_answer nbytes msecs used buf (record s { rcvtimeo = t }) more (some g))
unfolding read_answer
read_answer_lem nbytes msecs used buf s t more (failed e) rest = (failure, buf, t, refl, inl refl)
read_answer_lem nbytes msecs used buf s t more (got []) rest = (pos 0, buf, t, refl, inr (inl refl))
read_answer_lem nbytes msecs used buf s t more (got (y ∷ ys)) rest =
    let buf' = buf ++ (y ∷ ys) in
    elim (Bool-cases (ltb (length buf') nbytes)) [
      | inl short ↦ elim (Bool-cases (ltb_ℤ used (pos msecs))) [
        | inl time ↦
            rw (short, time) (rest buf' (omega (arith, length-append buf (y ∷ ys))) (ground arith))
        | inr late ↦ rw (short, late) (failure, buf', t, refl, inl refl)
      ]
      | inr full ↦ rw full (pos (length buf'), buf', t, refl, inr (inr (refl, ground arith)))
    ]

read_rounds_lem :
    (rs : List (Round Got)) (nbytes msecs : ℕ) (buf : List ℕ) (s : Socket)
    → AreAnswered received rs
    → 0 < length rs
    → nbytes ≤ length buf + length rs
    → ReadEnd nbytes s (read_rounds rs nbytes msecs buf s)
unfolding read_rounds
read_rounds_lem [] nbytes msecs buf s a h le = absurd (omega arith)
read_rounds_lem (_ ∷ rs) nbytes msecs buf s (round r g ok e a) h le =
    let used = timeuse r.cur r.last in
    rw (read_rounds, ok, e)
      (read_answer_lem nbytes msecs used buf s (of_msecs msecs) _ g (λ buf' longer short.
        read_rounds_lem rs nbytes (time_left msecs used) buf'
          (record s { rcvtimeo = of_msecs msecs }) a (omega (arith, longer, short, h, le))
          (omega (arith, longer, short, h, le))))

-- Every call that looks at the socket or changes it succeeds.
pub record IsServed {A : Type 0} (c : Script A) : Type 0 where
  pub getsockopt_ok : c.getsockopt_ok ≡ true
  pub getfl_ok : c.getfl_ok ≡ true
  pub setfl_ok : c.setfl_ok ≡ true
  pub restore_flag_ok : c.restore_flag_ok ≡ true
  pub restore_opt_ok : c.restore_opt_ok ≡ true

-- It ends, with the socket as it was.
abbrev pub IsBack : ℕ → Socket → Option (ℤ × List ℕ × Socket) → Type 0
IsBack nbytes s o = (n : ℤ) × (buf : List ℕ) × (o ≡ some (n, buf, s)) × IsResult nbytes n buf

read_restore_lem :
    (c : Script Got) (nbytes : ℕ) (o : Option End) (b : Bool) (rcv snd : Timeval)
    → IsServed c
    → ReadEnd nbytes (record { nonblock = false; rcvtimeo = rcv; sndtimeo = snd }) o
    → IsBack nbytes
        (record { nonblock = b; rcvtimeo = rcv; sndtimeo = snd })
        (read_restore c (record { nonblock = b; rcvtimeo = rcv; sndtimeo = snd }) o)
unfolding read_restore
read_restore_lem c nbytes o true rcv snd v (n, buf, t, e, r) =
    (n, buf, rw (read_restore, e, v.restore_flag_ok, v.restore_opt_ok) refl, r)
read_restore_lem c nbytes o false rcv snd v (n, buf, t, e, r) =
    (n, buf, rw (read_restore, e, v.restore_opt_ok) refl, r)

pub and_false : (b : Bool) → (b && false) ≡ false
and_false true = refl
and_false false = refl

module _ (c : Script Got) (nbytes : ℕ) (s : Socket) where
  read_waiting_lem :
      (msecs : ℕ) (buf : List ℕ)
      → IsServed c
      → AreAnswered received c.rounds
      → 0 < length c.rounds
      → nbytes ≤ length buf + length c.rounds
      → IsBack nbytes s (read_waiting c nbytes msecs buf s)
  unfolding read_waiting
  read_waiting_lem msecs buf v a h le =
      let o = read_rounds c.rounds nbytes msecs buf (record s { nonblock = false }) in
      rw (read_waiting, v.getsockopt_ok, v.getfl_ok, v.setfl_ok, and_false s.nonblock)
        (read_restore_lem c nbytes o s.nonblock s.rcvtimeo s.sndtimeo v
          (read_rounds_lem c.rounds nbytes msecs buf (record s { nonblock = false }) a h le))

  read_wait_lem :
      (msecs : ℤ) (buf : List ℕ)
      → IsServed c
      → AreAnswered received c.rounds
      → 0 < length c.rounds
      → nbytes ≤ length buf + length c.rounds
      → IsBack nbytes s (read_wait c nbytes msecs buf s)
  unfolding read_wait
  read_wait_lem (pos zero) buf v a h le = (failure, buf, refl, inl refl)
  read_wait_lem (pos (suc m)) buf v a h le = read_waiting_lem (suc m) buf v a h le
  read_wait_lem (negsuc m) buf v a h le = read_waiting_lem int_max buf v a h le

  readn_first_lem :
      (msecs : ℤ) (g : Got)
      → IsServed c
      → AreAnswered received c.rounds
      → 0 < length c.rounds
      → nbytes ≤ length c.rounds
      → IsBack nbytes s (readn_first c nbytes msecs s g)
  unfolding readn_first
  readn_first_lem msecs (failed other) v a h le = (failure, [], refl, inl refl)
  readn_first_lem msecs (failed eagain) v a h le = read_wait_lem msecs [] v a h (omega arith)
  readn_first_lem msecs (failed eintr) v a h le = read_wait_lem msecs [] v a h (omega arith)
  readn_first_lem msecs (got []) v a h le = (pos 0, [], refl, inr (inl refl))
  readn_first_lem msecs (got (y ∷ ys)) v a h le = elim (Bool-cases (length (y ∷ ys) == nbytes)) [
    | inl all ↦
        let eq : nbytes ≡ length (y ∷ ys) = ground arith in
        rw all (pos nbytes, y ∷ ys, refl, inr (inr (ap pos eq, omega (arith, eq))))
    | inr part ↦ rw part (read_wait_lem msecs (y ∷ ys) v a h (omega arith))
  ]

-- When the calls that look at the socket or change it succeed, and there are rounds for the bytes asked
-- for, at least one, whose call is answered in the end, `readn_to_ms` ends, whatever it reads, however
-- long that takes and whatever the wait: the socket's mode and timeouts are what they were, and the value is
-- -1, 0, or the number of the bytes stored, which is then no less than what was asked for.
pub readn_to_ms_lem :
    (c : Script Got) (nbytes : ℕ) (msecs : ℤ) (s : Socket)
    → IsServed c
    → AreAnswered received c.rounds
    → 0 < length c.rounds
    → nbytes ≤ length c.rounds
    → (n : ℤ) × (buf : List ℕ) × (readn_to_ms c nbytes msecs s ≡ some (n, buf, s))
      × IsResult nbytes n buf
unfolding readn_to_ms
readn_to_ms_lem c nbytes msecs s v a h le = readn_first_lem c nbytes s msecs c.first v a h le
