-- ===== src/Reactor.antt =====
-- reactor.h and reactor.cpp: the epoll reactor of read and write events, with the flags of util.h.
-- The class `Event` is in no file of the repository; `Event` here has the fields that the reactor
-- uses, with a Boolean for each bit of `ev_flags` and `ev_events`. Pointers are numbers, NULL is 0,
-- and `live` turns false where an event is deleted.
pub mod Slots
pub mod Epoll
pub mod Registry
pub mod Dispatch
use nf_server.Prelude.{ℕ, Bool, true, false, not, List, [], ◌∷◌, ltb, ◌==◌, if◌then◌else◌, update}
use nf_server.Prelude.Int.{ℤ, pos}

abbrev pub null : ℕ
null = 0

pub record Event : Type 0 where
  pub ev_fd : ℕ
  -- EV_READ, EV_WRITE, EV_TIMEOUT and EV_LISTEN of `ev_events`
  pub reads : Bool
  pub writes : Bool
  pub timeout : Bool
  pub listen : Bool
  -- EV_INIT, EV_INSERTED, EV_ACTIVE and EV_EPOLL_ACTIVE of `ev_flags`
  pub inited : Bool
  pub inserted : Bool
  pub active : Bool
  pub epoll_active : Bool
  -- whether `ev_reactor` is this reactor
  pub owned : Bool

-- EPOLL_CTL_ADD, EPOLL_CTL_MOD and EPOLL_CTL_DEL.
pub data CtlOp : Type 0 where
  ctl_add ctl_mod ctl_del : CtlOp

-- A call of `net_ep_add`; EPOLLHUP and EPOLLERR are in every mask.
pub record Call : Type 0 where
  pub op : CtlOp
  pub fd : ℕ
  pub epoll_in : Bool
  pub epoll_out : Bool

-- The reactor with the events of the process. `evread` and `evwrite` are the slots of `fds`; `calls`
-- holds the calls of `net_ep_add` and `tasks` those of `pool.AddTask`, the newest first. `threaded` is
-- the bit RA_THREAD of `status`, `ready` is RA_INIT.
pub record Reactor : Type 0 where
  pub ev : ℕ → Event
  pub live : ℕ → Bool
  pub evread : ℕ → ℕ
  pub evwrite : ℕ → ℕ
  pub ev_list : List ℕ
  pub event_count : ℤ
  pub nfile : ℕ
  pub threaded : Bool
  pub ready : Bool
  pub calls : List Call
  pub tasks : List ℕ

-- `*p` changed.
abbrev pub modify : ℕ → (Event → Event) → Reactor → Reactor
modify p f r = record r { ev = update r.ev p (f (r.ev p)) }

abbrev pub activate : Event → Event
activate e = record e { active = true }

abbrev pub deactivate : Event → Event
deactivate e = record e { active = false }

-- `delete p`.
abbrev pub free : ℕ → Reactor → Reactor
free p r = record r { live = update r.live p false }
