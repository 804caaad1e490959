-- ===== src/Timer.antt =====
-- commonn/timer.h and commonn/timer.cpp: timers in a multimap from the time at which they are due. The
-- multimap is the list of its entries in their order; a new entry goes behind those with its key, and
-- `find` gives the first. What `gettimeofday` tells is an argument, in milliseconds and rest; a callback
-- is a number, and what it does to other state is left to the caller: it must not change the timer.
pub mod Due
pub mod Order
use nf_server.Prelude.{
  ℕ, ◌+◌, ◌-◌, ◌*◌, ◌/◌, ◌%◌, ◌^◌, Bool, true, false, not, ◌&&◌, Option, none, some, List, [], ◌∷◌,
  ltb, ◌==◌, if◌then◌else◌,
}
use nf_server.Prelude.Int.{ℤ, pos, negsuc, pos_part, neg_part, sub_ℕ, ◌+ℤ◌, ltb_ℤ}

-- `pair<long long, pair<timer_callback_proc, void *> >`.
pub record Entry : Type 0 where
  pub due : ℤ
  pub proc : ℕ
  pub param : ℕ

-- The `int` with the low 32 bits `n`.
abbrev pub signed : ℕ → ℤ
signed n = if ltb n (2 ^ 31) then pos n else negsuc (2 ^ 32 - 1 - n)

-- A value converted to `int`.
unfoldable pub to_int : ℤ → ℤ
to_int (pos n) = signed (n % 2 ^ 32)
to_int (negsuc n) = signed (2 ^ 32 - 1 - n % 2 ^ 32)

-- `struct timeval`, after 1970.
pub record Timeval : Type 0 where
  pub tv_sec : ℕ
  pub tv_usec : ℕ

abbrev pub get_time_msec : Timeval → ℤ
get_time_msec tv = pos (tv.tv_sec * 1000 + tv.tv_usec / 1000)

abbrev pub eqb_ℤ : ℤ → ℤ → Bool
eqb_ℤ a b = (pos_part a + neg_part b) == (pos_part b + neg_part a)

-- `timer.insert`.
unfoldable pub insert : Entry → List Entry → List Entry
insert e [] = e ∷ []
insert e (x ∷ xs) = if ltb_ℤ e.due x.due then e ∷ x ∷ xs else x ∷ insert e xs

-- `add_timer_ms`: the time that it returns, and the timer.
unfoldable pub add_timer_ms : Timeval → ℤ → ℕ → ℕ → List Entry → ℤ × List Entry
unfolding insert to_int
add_timer_ms now time proc param timer =
    let msec = to_int (to_int (get_time_msec now) +ℤ time) in
    (msec, insert (record { due = msec; proc = proc; param = param }) timer)

-- The loop of `del_timer_ms` over the entries with the key.
unfoldable pub erase_param : ℤ → ℕ → List Entry → List Entry
erase_param time param [] = []
erase_param time param (x ∷ xs) =
    if not (eqb_ℤ x.due time)
    then x ∷ xs
    else if x.param == param
    then xs
    else x ∷ erase_param time param xs

-- `del_timer_ms`: from the first entry with the key on.
unfoldable pub del_timer_ms : ℤ → ℕ → List Entry → List Entry
unfolding erase_param
del_timer_ms time param [] = []
del_timer_ms time param (x ∷ xs) =
    let rest = del_timer_ms time param xs in
    if eqb_ℤ x.due time then erase_param time param (x ∷ xs) else x ∷ rest

-- `top_timer_ms`.
unfoldable pub top_timer_ms : Timeval → List Entry → ℤ
unfolding to_int
top_timer_ms now [] = pos 0
top_timer_ms now (x ∷ xs) =
    let msec = to_int (get_time_msec now) in
    sub_ℕ (pos_part x.due + neg_part msec) (neg_part x.due + pos_part msec)

-- A call that `expire_timer_ms` makes.
pub record Call : Type 0 where
  pub proc : ℕ
  pub param : ℕ

-- The first loop of `expire_timer_ms`.
unfoldable pub fire : ℤ → List Entry → List Call
fire msec [] = []
fire msec (x ∷ xs) =
    if not (ltb_ℤ msec x.due) then record { proc = x.proc; param = x.param } ∷ fire msec xs else []

-- The second loop, where `none` is a read of the end of the multimap.
unfoldable pub erase_due : ℤ → List Entry → Option (List Entry)
erase_due msec [] = none
erase_due msec (x ∷ xs) = if not (ltb_ℤ msec x.due) then erase_due msec xs else some (x ∷ xs)

-- `expire_timer_ms`: the calls, in their order, and the timer.
unfoldable pub expire_timer_ms : Timeval → List Entry → List Call × Option (List Entry)
unfolding to_int fire erase_due
expire_timer_ms now [] = ([], some [])
expire_timer_ms now (x ∷ xs) =
    let msec = to_int (get_time_msec now) in (fire msec (x ∷ xs), erase_due msec (x ∷ xs))
