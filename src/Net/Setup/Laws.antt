-- ===== src/Net/Setup/Laws.antt =====
-- What set-up leaves of a descriptor: its flags, and whether it is open.
use nf_server.Prelude.{
  ℕ, zero, suc, ◌+◌, ◌-◌, ◌≡◌, ◌⊎◌, refl, ap, inl, inr, beq_ne, Bool, true, false, not, Bool-cases,
  none, some, ◌==◌, if◌then◌else◌, arith,
}
use nf_server.Prelude.Int.{ℤ, pos, success, failure, ltb_ℤ}
use nf_server.Net.Setup.{
  Fd, has_bit, set_fd, set_clc_fd, o_nonblock, set_fd_noblock, set_fd_block, Listener, queue_or,
  net_tcplisten, Calls, connect_error, restore_flags, connect_done, net_connect_to_tv,
}

by_error :
    (isclose : Bool) (n flags : ℕ)
    → connect_done isclose n (record { flags = flags; is_open = true }) ≡ (
        if n == 0
        then (success, record { flags = flags; is_open = true })
        else (failure, record { flags = flags; is_open = not isclose }))
unfolding connect_done
by_error isclose zero flags = refl
by_error true (suc n) flags = rw (beq_ne (suc n) 0 (λ e. absurd (omega (arith, e)))) refl
by_error false (suc n) flags = rw (beq_ne (suc n) 0 (λ e. absurd (omega (arith, e)))) refl

-- The descriptor after `set_fd` and the restoring call.
opened :
    (bit flags : ℕ)
    → (let r = set_fd bit true true (record { flags = flags; is_open = true }) in
        restore_flags r.0 r.1)
      ≡ record { flags = flags; is_open = true }
unfolding set_fd
opened bit flags = elim (Bool-cases (has_bit bit flags)) [
  | inl there ↦ rw there refl
  | inr absent ↦ rw absent refl
]

-- With an address and calls that get and set the flags, `net_connect_to_tv` leaves the flags of the
-- descriptor as they were, whether or not it connects; it returns 0 with the descriptor as it was where
-- no error was found, and -1 otherwise, and then closes the descriptor just where `isclose` asks for it.
pub net_connect_to_tv_lem :
    (c : Calls) (isclose : Bool) (flags : ℕ)
    → c.getfl ≡ true
    → c.setfl ≡ true
    → net_connect_to_tv c true isclose (record { flags = flags; is_open = true }) ≡ (
        if connect_error c == 0
        then (success, record { flags = flags; is_open = true })
        else (failure, record { flags = flags; is_open = not isclose }))
unfolding net_connect_to_tv set_fd_noblock set_fd
net_connect_to_tv_lem c isclose flags g s =
    rw (net_connect_to_tv, set_fd_noblock, g, s, opened o_nonblock flags)
      (by_error isclose (connect_error c) flags)

added : (val : ℕ) → has_bit o_nonblock val ≡ false → has_bit o_nonblock (val + o_nonblock) ≡ true
added val h = ground arith

-- Setting O_NONBLOCK where it was not set and taking it away again gives the flags back.
pub set_fd_block-set_fd_noblock :
    (f : Fd)
    → has_bit o_nonblock f.flags ≡ false
    → (set_fd_block true true (set_fd_noblock true true f).1).1 ≡ f
unfolding set_fd_block set_fd_noblock set_fd set_clc_fd
set_fd_block-set_fd_noblock f h =
    rw (set_fd_noblock, set_fd, h, added f.flags h)
      (ap (λ (k : ℕ). record f { flags = k }) {x = f.flags + o_nonblock - o_nonblock} {y = f.flags}
        (omega arith))

-- Unless `setsockopt` fails, `net_tcplisten` leaves no socket open when it returns -1, and otherwise
-- returns an open socket that listens with a queue longer than 0; when `setsockopt` fails it returns -1
-- and leaves its socket open.
pub net_tcplisten_lem :
    (queue : ℤ) (fd : ℕ) (bind listen : Bool)
    → (net_tcplisten queue (some fd) false bind listen
        ≡ (failure, some (record { fd = fd; is_open = true; backlog = none })))
      × ((s : Listener) × ((net_tcplisten queue (some fd) true bind listen ≡ (failure, some s))
              × (s.is_open ≡ false)
            ⊎ (net_tcplisten queue (some fd) true bind listen ≡ (pos fd, some s))
              × (s.is_open ≡ true)
              × (n : ℤ) × (s.backlog ≡ some n)
              × (ltb_ℤ (pos 0) n ≡ true)))
unfolding net_tcplisten
net_tcplisten_lem queue fd false listen = (refl, (_, inl (refl, refl)))
net_tcplisten_lem queue fd true false = (refl, (_, inl (refl, refl)))
net_tcplisten_lem queue fd true true = (
  refl,
  (
    record { fd = fd; is_open = true; backlog = some (queue_or queue) },
    inr (refl, refl, queue_or queue, refl, longer),
  ),
)
  where
    longer : ltb_ℤ (pos 0) (queue_or queue) ≡ true
    longer = elim (Bool-cases (ltb_ℤ (pos 0) queue)) [
      | inl more ↦ rw more more
      | inr less ↦ rw less refl
    ]
