-- ===== src/Net/Timed.antt =====
-- net.cpp: `readn_to_ms` and `sendn_to_ms`, which wait for a socket at most a number of milliseconds. The
-- socket's mode and timeouts are changed while they wait, and put back after. The clock does not go
-- backwards so far that the milliseconds left pass the largest `int`.
pub mod Restore
pub mod Send
use nf_server.Prelude.{
  ℕ, zero, suc, ◌+◌, ◌-◌, ◌*◌, ◌/◌, ◌%◌, ◌^◌, Bool, true, false, not, ◌&&◌, Option, none, some,
  List, [], ◌∷◌, ◌++◌, ◌==◌, ltb, leb, if◌then◌else◌, length, take, drop,
}
use nf_server.Prelude.Int.{ℤ, pos, negsuc, failure, sub_ℕ, ltb_ℤ, pos_part, neg_part}
use nf_server.Timer.{Timeval}
use nf_server.Net.{eintr, eagain, other, Got, got, failed, Wrote, wrote, refused}

pub record Socket : Type 0 where
  pub nonblock : Bool
  pub rcvtimeo : Timeval
  pub sndtimeo : Timeval

-- A round: whether `setsockopt` succeeds, the calls of `recv` or `send` until one is not interrupted, and
-- the clock before and after them.
pub record Round (A : Type 0) : Type 0 where
  pub set_ok : Bool
  pub calls : List A
  pub cur : Timeval
  pub last : Timeval

-- The first call, whether the calls that look at the socket and make it block succeed, the rounds, and
-- whether the calls that put the mode and the timeout back succeed.
pub record Script (A : Type 0) : Type 0 where
  pub first : A
  pub getsockopt_ok : Bool
  pub getfl_ok : Bool
  pub setfl_ok : Bool
  pub rounds : List (Round A)
  pub restore_flag_ok : Bool
  pub restore_opt_ok : Bool

abbrev pub int_max : ℕ
int_max = 2 ^ 31 - 1

-- `timeuse`, the division rounding towards 0.
abbrev pub timeuse : Timeval → Timeval → ℤ
timeuse cur last =
    sub_ℕ ((last.tv_usec - cur.tv_usec) / 1000 + last.tv_sec * 1000)
      ((cur.tv_usec - last.tv_usec) / 1000 + cur.tv_sec * 1000)

-- `msecs -= timeuse`, where less than `msecs` was used.
abbrev pub time_left : ℕ → ℤ → ℕ
time_left msecs used = msecs + neg_part used - pos_part used

abbrev pub of_msecs : ℕ → Timeval
of_msecs msecs = record { tv_sec = msecs / 1000; tv_usec = (msecs % 1000) * 1000 }

-- The call of `recv` that is not interrupted.
abbrev pub received : List Got → Option Got
received [] = none
received (got ys ∷ gs) = some (got ys)
received (failed eintr ∷ gs) = received gs
received (failed eagain ∷ gs) = some (failed eagain)
received (failed other ∷ gs) = some (failed other)

abbrev pub accepted : List Wrote → Option Wrote
accepted [] = none
accepted (wrote k ∷ ws) = some (wrote k)
accepted (refused eintr ∷ ws) = accepted ws
accepted (refused eagain ∷ ws) = some (refused eagain)
accepted (refused other ∷ ws) = some (refused other)

-- Where the loop ends: with a value of `nread` or `nwrite`, or at once because a call failed.
pub data End : Type 0 where
  value : ℤ → List ℕ → Socket → End
  quit : List ℕ → Socket → End

-- What `readn_to_ms` does with what `recv` returned; `more` is the rest of the loop.
unfoldable pub read_answer :
    ℕ → ℕ → ℤ → List ℕ → Socket → (List ℕ → Option End) → Option Got → Option End
read_answer nbytes msecs used buf s more none = none
read_answer nbytes msecs used buf s more (some (failed e)) = some (value failure buf s)
read_answer nbytes msecs used buf s more (some (got [])) = some (value (pos 0) buf s)
read_answer nbytes msecs used buf s more (some (got (y ∷ ys))) =
    let buf' = buf ++ (y ∷ ys) in
    let next = more buf' in
    if ltb (length buf') nbytes
    then (if ltb_ℤ used (pos msecs) then next else some (value failure buf' s))
    else some (value (pos (length buf')) buf' s)

-- The loop of `readn_to_ms`; `buf` is stored.
unfoldable pub read_rounds : List (Round Got) → ℕ → ℕ → List ℕ → Socket → Option End
unfolding read_answer
read_rounds [] nbytes msecs buf s = none
read_rounds (r ∷ rs) nbytes msecs buf s =
    let s' : Socket = record s { rcvtimeo = of_msecs msecs } in
    let used = timeuse r.cur r.last in
    let next : List ℕ → Option End = λ buf'. read_rounds rs nbytes (time_left msecs used) buf' s' in
    if r.set_ok
    then read_answer nbytes msecs used buf s' next (received r.calls)
    else some (quit buf s)

-- What `sendn_to_ms` does with what `send` returned, the first `nwrite` bytes taken so far.
unfoldable pub send_answer :
    ℕ → ℤ → List ℕ → ℕ → Socket → (ℕ → Option End) → Option Wrote → Option End
send_answer msecs used buf nwrite s more none = none
send_answer msecs used buf nwrite s more (some (refused e)) =
    some (value failure (take nwrite buf) s)
send_answer msecs used buf nwrite s more (some (wrote zero)) =
    some (value (pos nwrite) (take nwrite buf) s)
send_answer msecs used buf nwrite s more (some (wrote (suc k))) =
    let n = nwrite + suc k in
    let next = more n in
    if ltb n (length buf)
    then (if ltb_ℤ used (pos msecs) then next else some (value failure (take n buf) s))
    else some (value (pos n) (take n buf) s)

-- The loop of `sendn_to_ms` for the bytes `buf`, of which the first `nwrite` were taken.
unfoldable pub send_rounds : List (Round Wrote) → ℕ → List ℕ → ℕ → Socket → Option End
unfolding send_answer
send_rounds [] msecs buf nwrite s = none
send_rounds (r ∷ rs) msecs buf nwrite s =
    let s' : Socket = record s { sndtimeo = of_msecs msecs } in
    let used = timeuse r.cur r.last in
    let next : ℕ → Option End = λ n. send_rounds rs (time_left msecs used) buf n s' in
    if r.set_ok
    then send_answer msecs used buf nwrite s' next (accepted r.calls)
    else some (quit (take nwrite buf) s)

-- The value that is returned, the bytes that went over, and the socket.
abbrev pub Outcome : Type 0
Outcome = ℤ × List ℕ × Socket

-- After the loop of `readn_to_ms`: the mode is put back if it was changed, then the timeout.
unfoldable pub read_restore : Script Got → Socket → Option End → Option Outcome
read_restore c old none = none
read_restore c old (some (quit buf s)) = some (failure, buf, s)
read_restore c old (some (value n buf s)) =
    let s' : Socket = if old.nonblock then record s { nonblock = true } else s in
    if old.nonblock && not c.restore_flag_ok
    then some (failure, buf, s)
    else if c.restore_opt_ok
    then some (n, buf, record s' { rcvtimeo = old.rcvtimeo })
    else some (failure, buf, s')

-- The part of `readn_to_ms` that waits, with `buf` stored.
unfoldable pub read_waiting : Script Got → ℕ → ℕ → List ℕ → Socket → Option Outcome
unfolding read_restore read_rounds
read_waiting c nbytes msecs buf s =
    let end =
      read_restore c s (read_rounds c.rounds nbytes msecs buf (record s { nonblock = false })) in
    if not c.getsockopt_ok
    then some (failure, buf, s)
    else if not c.getfl_ok
    then some (failure, buf, s)
    else if s.nonblock && not c.setfl_ok
    then some (failure, buf, s)
    else end

-- The wait that `msecs` asks for: none at all for 0, and the longest for a negative one.
unfoldable pub read_wait : Script Got → ℕ → ℤ → List ℕ → Socket → Option Outcome
unfolding read_waiting
read_wait c nbytes (pos zero) buf s = some (failure, buf, s)
read_wait c nbytes (pos (suc m)) buf s = read_waiting c nbytes (suc m) buf s
read_wait c nbytes (negsuc m) buf s = read_waiting c nbytes int_max buf s

-- `readn_to_ms` after the first `recv`.
unfoldable pub readn_first : Script Got → ℕ → ℤ → Socket → Got → Option Outcome
unfolding read_wait
readn_first c nbytes msecs s (failed other) = some (failure, [], s)
readn_first c nbytes msecs s (failed eagain) = read_wait c nbytes msecs [] s
readn_first c nbytes msecs s (failed eintr) = read_wait c nbytes msecs [] s
readn_first c nbytes msecs s (got []) = some (pos 0, [], s)
readn_first c nbytes msecs s (got (y ∷ ys)) =
    let wait = read_wait c nbytes msecs (y ∷ ys) s in
    if length (y ∷ ys) == nbytes then some (pos nbytes, y ∷ ys, s) else wait

unfoldable pub readn_to_ms : Script Got → ℕ → ℤ → Socket → Option Outcome
unfolding readn_first
readn_to_ms c nbytes msecs s = readn_first c nbytes msecs s c.first

-- After the loop of `sendn_to_ms`: the mode and the timeout are put back.
unfoldable pub send_restore : Script Wrote → Socket → Option End → Option Outcome
send_restore c old none = none
send_restore c old (some (quit out s)) = some (failure, out, s)
send_restore c old (some (value n out s)) =
    let s' : Socket = record s { nonblock = old.nonblock } in
    if not c.restore_flag_ok
    then some (failure, out, s)
    else if c.restore_opt_ok
    then some (n, out, record s' { sndtimeo = old.sndtimeo })
    else some (failure, out, s')

unfoldable pub send_waiting : Script Wrote → ℕ → List ℕ → ℕ → Socket → Option Outcome
unfolding send_restore send_rounds
send_waiting c msecs buf nwrite s =
    let end =
      send_restore c s (send_rounds c.rounds msecs buf nwrite (record s { nonblock = false })) in
    let out = take nwrite buf in
    if not c.getsockopt_ok
    then some (failure, out, s)
    else if not c.getfl_ok
    then some (failure, out, s)
    else if s.nonblock && not c.setfl_ok
    then some (failure, out, s)
    else end

unfoldable pub send_wait : Script Wrote → ℤ → List ℕ → ℕ → Socket → Option Outcome
unfolding send_waiting
send_wait c (pos zero) buf nwrite s = some (failure, take nwrite buf, s)
send_wait c (pos (suc m)) buf nwrite s = send_waiting c (suc m) buf nwrite s
send_wait c (negsuc m) buf nwrite s = send_waiting c int_max buf nwrite s

-- `sendn_to_ms` after the first `send`.
unfoldable pub sendn_first : Script Wrote → List ℕ → ℤ → Socket → Wrote → Option Outcome
unfolding send_wait
sendn_first c buf msecs s (refused other) = some (failure, [], s)
sendn_first c buf msecs s (refused eagain) = send_wait c msecs buf 0 s
sendn_first c buf msecs s (refused eintr) = send_wait c msecs buf 0 s
sendn_first c buf msecs s (wrote zero) = some (pos 0, [], s)
sendn_first c buf msecs s (wrote (suc k)) =
    let wait = send_wait c msecs buf (suc k) s in
    if suc k == length buf then some (pos (suc k), buf, s) else wait

unfoldable pub sendn_to_ms : Script Wrote → List ℕ → ℤ → Socket → Option Outcome
unfolding sendn_first
sendn_to_ms c buf msecs s = sendn_first c buf msecs s c.first
