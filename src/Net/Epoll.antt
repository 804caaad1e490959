-- ===== src/Net/Epoll.antt =====
-- The wrappers of the epoll calls and of SO_LINGER in net.cpp: each is one call of the system, which is
-- given here with its arguments. `data` is a union, so the pointer that is stored last takes the place of
-- the descriptor; NULL is 0.
use nf_server.Prelude.{ℕ, Bool, true, false, Option, none, some}
use nf_server.Prelude.Int.{ℤ, pos}

-- The bits of `events` that net.cpp uses.
record Mask : Type 0 where
  epoll_in : Bool
  epoll_hup : Bool
  epoll_err : Bool
  epoll_oneshot : Bool

abbrev no_events : Mask
no_events = record { epoll_in = false; epoll_hup = false; epoll_err = false; epoll_oneshot = false }

-- `op`.
data Op : Type 0 where
  ctl_add ctl_mod ctl_del : Op

-- A call of the system.
data SysCall : Type 0 where
  epoll_create : (size : ℤ) → SysCall
  epoll_ctl : (epfd : ℤ) → Op → (fd : ℤ) → (event : Option (Mask × ℕ)) → SysCall
  set_so_linger : (fd : ℤ) → (l_onoff l_linger : ℤ) → SysCall

abbrev net_ep_create : ℤ → SysCall
net_ep_create size = epoll_create size

abbrev net_ep_add : (epfd fd : ℤ) → Mask → (ptr : ℕ) → Op → SysCall
net_ep_add epfd fd events ptr op =
    epoll_ctl epfd op fd (some (record events { epoll_hup = true; epoll_err = true }, ptr))

abbrev net_ep_add_in : (epfd fd : ℤ) → SysCall
net_ep_add_in epfd fd =
    net_ep_add epfd fd (record no_events { epoll_in = true; epoll_hup = true; epoll_err = true }) 0
      ctl_add

abbrev net_ep_add_in1 : (epfd fd : ℤ) → SysCall
net_ep_add_in1 epfd fd =
    net_ep_add epfd fd
      (record no_events {
        epoll_in = true;
        epoll_hup = true;
        epoll_err = true;
        epoll_oneshot = true;
      })
      0 ctl_add

abbrev net_ep_del : (epfd fd : ℤ) → SysCall
net_ep_del epfd fd = epoll_ctl epfd ctl_del fd none

abbrev set_linger : (fd val : ℤ) → SysCall
set_linger fd val = set_so_linger fd (pos 1) val
