-- ===== src/Net/Setup.antt =====
-- net.cpp: the flags of a descriptor, listening and connecting. What the system calls return is an
-- argument; a descriptor is its flags, a number, and whether it is open. The flag that is set or taken
-- away is a single bit, and `flags` is below 2 ^ 31.
pub mod Laws
use nf_server.Prelude.{
  ℕ, zero, suc, ◌+◌, ◌-◌, ◌*◌, ◌/◌, ◌%◌, Bool, true, false, not, Option, none, some, List, [], ◌∷◌,
  ◌==◌, leb, if◌then◌else◌,
}
use nf_server.Prelude.Int.{ℤ, pos, negsuc, success, failure, ltb_ℤ}
use nf_server.Timer.{Timeval}

pub record Fd : Type 0 where
  pub flags : ℕ
  pub is_open : Bool

abbrev pub closed : Fd → Fd
closed f = record f { is_open = false }

-- `val & bit`, `val | bit` and `val & ~bit`.
abbrev pub has_bit : ℕ → ℕ → Bool
has_bit bit val = val / bit % 2 == 1

abbrev pub set_bit : ℕ → ℕ → ℕ
set_bit bit val = if has_bit bit val then val else val + bit

abbrev pub clear_bit : ℕ → ℕ → ℕ
clear_bit bit val = if has_bit bit val then val - bit else val

-- `set_fd`, with whether F_GETFL and F_SETFL succeed.
unfoldable pub set_fd : (bit : ℕ) → (getfl setfl : Bool) → Fd → ℤ × Fd
set_fd bit getfl setfl f =
    if not getfl
    then (failure, closed f)
    else if has_bit bit f.flags
    then (pos f.flags, f)
    else if not setfl
    then (failure, closed f)
    else (pos f.flags, record f { flags = set_bit bit f.flags })

-- `set_clc_fd`.
unfoldable pub set_clc_fd : (bit : ℕ) → (getfl setfl : Bool) → Fd → ℤ × Fd
set_clc_fd bit getfl setfl f =
    if not getfl
    then (failure, closed f)
    else if not setfl
    then (failure, closed f)
    else (pos f.flags, record f { flags = clear_bit bit f.flags })

abbrev pub o_nonblock : ℕ
o_nonblock = 2048

unfoldable pub set_fd_noblock : (getfl setfl : Bool) → Fd → ℤ × Fd
unfolding set_fd
set_fd_noblock getfl setfl f = set_fd o_nonblock getfl setfl f

unfoldable pub set_fd_block : (getfl setfl : Bool) → Fd → ℤ × Fd
unfolding set_clc_fd
set_fd_block getfl setfl f = set_clc_fd o_nonblock getfl setfl f

-- A socket that listens: the descriptor, whether it is open, and the length of its queue, if any.
pub record Listener : Type 0 where
  pub fd : ℕ
  pub is_open : Bool
  pub backlog : Option ℤ

abbrev pub queue_or : ℤ → ℤ
queue_or queue = if ltb_ℤ (pos 0) queue then queue else pos 5

-- `net_tcplisten`, with what `socket` gives, and the socket that it made, if it made one.
unfoldable pub net_tcplisten : ℤ → Option ℕ → (setsockopt bind listen : Bool) → ℤ × Option Listener
net_tcplisten queue none setsockopt bind listen = (failure, none)
net_tcplisten queue (some fd) setsockopt bind listen =
    let s : Listener = record { fd = fd; is_open = true; backlog = none } in
    if not setsockopt
    then (failure, some s)
    else if not bind
    then (failure, some (record s { is_open = false }))
    else if not listen
    then (failure, some (record s { is_open = false }))
    else (pos fd, some (record s { backlog = some (queue_or queue) }))

-- What `connect` and `select` return.
pub data Connected : Type 0 where
  at_once in_progress refused : Connected

pub data Selected : Type 0 where
  timed_out : Selected
  ready : Selected
  unset : Selected

-- The calls of `net_connect_to_tv`; `so_error` is what `getsockopt` writes, unless it fails.
pub record Calls : Type 0 where
  pub getfl : Bool
  pub setfl : Bool
  pub connect : Connected
  pub select : Selected
  pub so_error : Option ℕ

-- The value of `error` at `done`.
unfoldable pub connect_error : Calls → ℕ
connect_error c = elim c.connect [
  | at_once ↦ 0
  | refused ↦ 1
  | in_progress ↦ elim c.select [
    | timed_out ↦ 1
    | unset ↦ 0
    | ready ↦ elim c.so_error [ none ↦ 1 | some error ↦ error ]
  ]
]

-- `fcntl(fd, F_SETFL, sockflag)`, which changes nothing on a closed descriptor.
abbrev pub restore_flags : ℤ → Fd → Fd
restore_flags (negsuc n) f = f
restore_flags (pos val) f = record f { flags = if f.is_open then val else f.flags }

-- From `done` on.
unfoldable pub connect_done : Bool → ℕ → Fd → ℤ × Fd
connect_done isclose zero f = (success, f)
connect_done isclose (suc error) f = (failure, if isclose then closed f else f)

-- `net_connect_to_tv`, with whether there is an address.
unfoldable pub net_connect_to_tv : Calls → (has_sa isclose : Bool) → Fd → ℤ × Fd
unfolding set_fd_noblock connect_error connect_done
net_connect_to_tv c has_sa isclose f =
    if not has_sa
    then (failure, closed f)
    else (let r = set_fd_noblock c.getfl c.setfl f in
        connect_done isclose (connect_error c) (restore_flags r.0 r.1))

-- The timeout that `net_connect_to_ms` gives to `net_connect_to_tv`.
unfoldable pub connect_timeout : ℤ → Option Timeval
connect_timeout (negsuc n) = none
connect_timeout (pos zero) = none
connect_timeout (pos (suc n)) =
    some (record { tv_sec = suc n / 1000; tv_usec = (suc n % 1000) * 1000 })
