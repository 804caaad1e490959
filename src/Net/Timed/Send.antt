-- ===== src/Net/Timed/Send.antt =====
-- `sendn_to_ms` ends, and puts the socket back as it was.
use nf_server.Prelude.{
  ℕ, zero, suc, ◌+◌, ◌≤◌, ◌<◌, ◌≡◌, ◌⊎◌, refl, sym, ap, ◌∙◌, inl, inr, false, Bool-cases, Option,
  some, List, [], ◌∷◌, ◌==◌, ltb, length, take, take-length, arith,
}
use nf_server.Prelude.Int.{ℤ, pos, negsuc, failure, ltb_ℤ}
use nf_server.Timer.{Timeval}
use nf_server.Net.{eintr, eagain, other, Wrote, wrote, refused}
use nf_server.Net.Timed.{
  Socket, Round, Script, int_max, timeuse, time_left, of_msecs, accepted, End, value, send_answer,
  send_rounds, send_restore, send_waiting, send_wait, sendn_first, sendn_to_ms,
}
use nf_server.Net.Timed.Restore.{AreAnswered, round, IsServed, and_false}

-- A value other than -1 is the number of the bytes that were taken, from the first on.
abbrev pub IsSent : List ℕ → ℤ → List ℕ → Type 0
IsSent buf n out = (n ≡ failure) ⊎ ((k : ℕ) × (n ≡ pos k) × (out ≡ take k buf))

-- Where the loop of `sendn_to_ms` can end: only the timeout for writing differs.
abbrev SendEnd : List ℕ → Socket → Option End → Type 0
SendEnd buf s o =
    (n : ℤ) × (out : List ℕ) × (t : Timeval) × (o ≡ some (value n out (record s { sndtimeo = t })))
    × IsSent buf n out

send_answer_lem :
    (msecs : ℕ) (used : ℤ) (buf : List ℕ) (nwrite : ℕ) (s : Socket) (t : Timeval)
    (more : ℕ → Option End) (w : Wrote)
    → ((n : ℕ) → nwrite < n → n < length buf → SendEnd buf s (more n))
    → SendEnd buf s (send_answer msecs used buf nwrite (record s { sndtimeo = t }) more (some w))
unfolding send_answer
send_answer_lem msecs used buf nwrite s t more (refused e) rest =
    (failure, take nwrite buf, t, refl, inl refl)
send_answer_lem msecs used buf nwrite s t more (wrote zero) rest =
    (pos nwrite, take nwrite buf, t, refl, inr (nwrite, refl, refl))
send_answer_lem msecs used buf nwrite s t more (wrote (suc k)) rest =
    let n = nwrite + suc k in
    elim (Bool-cases (ltb n (length buf))) [
      | inl short ↦ elim (Bool-cases (ltb_ℤ used (pos msecs))) [
        | inl time ↦ rw (short, time) (rest n (omega arith) (ground arith))
        | inr late ↦ rw (short, late) (failure, take n buf, t, refl, inl refl)
      ]
      | inr full ↦ rw full (pos n, take n buf, t, refl, inr (n, refl, refl))
    ]

send_rounds_lem :
    (rs : List (Round Wrote)) (msecs : ℕ) (buf : List ℕ) (nwrite : ℕ) (s : Socket)
    → AreAnswered accepted rs
    → 0 < length rs
    → length buf ≤ nwrite + length rs
    → SendEnd buf s (send_rounds rs msecs buf nwrite s)
unfolding send_rounds
send_rounds_lem [] msecs buf nwrite s a h le = absurd (omega arith)
send_rounds_lem (_ ∷ rs) msecs buf nwrite s (round r w ok e a) h le =
    let used = timeuse r.cur r.last in
    rw (send_rounds, ok, e)
      (send_answer_lem msecs used buf nwrite s (of_msecs msecs) _ w (λ n longer short.
        send_rounds_lem rs (time_left msecs used) buf n (record s { sndtimeo = of_msecs msecs }) a
          (omega (arith, longer, short, h, le)) (omega (arith, longer, short, h, le))))

-- It ends, with the socket as it was.
abbrev IsBack : List ℕ → Socket → Option (ℤ × List ℕ × Socket) → Type 0
IsBack buf s o = (n : ℤ) × (out : List ℕ) × (o ≡ some (n, out, s)) × IsSent buf n out

module _ (c : Script Wrote) (buf : List ℕ) (s : Socket) where
  send_waiting_lem :
      (msecs nwrite : ℕ)
      → IsServed c
      → AreAnswered accepted c.rounds
      → 0 < length c.rounds
      → length buf ≤ length c.rounds
      → IsBack buf s (send_waiting c msecs buf nwrite s)
  unfolding send_waiting send_restore
  send_waiting_lem msecs nwrite v a h le =
      let (n, out, t, e, r) =
        send_rounds_lem c.rounds msecs buf nwrite (record s { nonblock = false }) a h
          (omega (arith, le)) in
      (
        n,
        out,
        rw
            (
              send_waiting,
              v.getsockopt_ok,
              v.getfl_ok,
              v.setfl_ok,
              and_false s.nonblock,
              e,
              send_restore,
              v.restore_flag_ok,
              v.restore_opt_ok,
            )
            refl,
        r,
      )

  send_wait_lem :
      (msecs : ℤ) (nwrite : ℕ)
      → IsServed c
      → AreAnswered accepted c.rounds
      → 0 < length c.rounds
      → length buf ≤ length c.rounds
      → IsBack buf s (send_wait c msecs buf nwrite s)
  unfolding send_wait
  send_wait_lem (pos zero) nwrite v a h le = (failure, take nwrite buf, refl, inl refl)
  send_wait_lem (pos (suc m)) nwrite v a h le = send_waiting_lem (suc m) nwrite v a h le
  send_wait_lem (negsuc m) nwrite v a h le = send_waiting_lem int_max nwrite v a h le

  sendn_first_lem :
      (msecs : ℤ) (w : Wrote)
      → IsServed c
      → AreAnswered accepted c.rounds
      → 0 < length c.rounds
      → length buf ≤ length c.rounds
      → IsBack buf s (sendn_first c buf msecs s w)
  unfolding sendn_first
  sendn_first_lem msecs (refused other) v a h le = (failure, [], refl, inl refl)
  sendn_first_lem msecs (refused eagain) v a h le = send_wait_lem msecs 0 v a h le
  sendn_first_lem msecs (refused eintr) v a h le = send_wait_lem msecs 0 v a h le
  sendn_first_lem msecs (wrote zero) v a h le = (pos 0, [], refl, inr (0, refl, refl))
  sendn_first_lem msecs (wrote (suc k)) v a h le = elim (Bool-cases (suc k == length buf)) [
    | inl all ↦
        let eq : length buf ≡ suc k = ground arith in
        rw all (
          pos (suc k),
          buf,
          refl,
          inr (suc k, refl, sym (take-length buf) ∙ ap (λ n. take n buf) eq),
        )
    | inr part ↦ rw part (send_wait_lem msecs (suc k) v a h le)
  ]

-- When the calls that look at the socket or change it succeed, and there are as many rounds as bytes, at
-- least one, whose call is answered in the end, `sendn_to_ms` ends, whatever is taken, however long that
-- takes and whatever the wait: the socket's mode and timeouts are what they were, and the value is -1 or
-- the number of the bytes that were taken, which are the first ones.
sendn_to_ms_lem :
    (c : Script Wrote) (buf : List ℕ) (msecs : ℤ) (s : Socket)
    → IsServed c
    → AreAnswered accepted c.rounds
    → 0 < length c.rounds
    → length buf ≤ length c.rounds
    → (n : ℤ) × (out : List ℕ) × (sendn_to_ms c buf msecs s ≡ some (n, out, s)) × IsSent buf n out
unfolding sendn_to_ms
sendn_to_ms_lem c buf msecs s v a h le = sendn_first_lem c buf s msecs c.first v a h le
