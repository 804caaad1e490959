-- ===== src/SockEvent.antt =====
-- NfUnit/baseEvent.h and NfUnit/baseEvent.cpp: the fields of an event on a socket, its registrations and
-- the choice of its callback. `closed` holds the descriptors that were closed, the newest first.
use nf_server.Prelude.{Bool, true, false, List, [], ◌∷◌, if◌then◌else◌}
use nf_server.Prelude.Int.{ℤ, pos, success, failure, ltb_ℤ}
use nf_server.SyncReactor.{Bits, Kind, cpu, net, Status, init}

-- `_sockType`.
pub data SockType : Type 0 where
  base accept read write tcpconnect : SockType

pub record SockEvent : Type 0 where
  pub handle : ℤ
  pub kind : Kind
  pub status : Status
  pub result : Bits
  pub sock_type : SockType
  pub reused : Bool
  pub closed : List ℤ

abbrev pub no_bits : Bits
no_bits = record {
  readable = false;
  writeable = false;
  closesock = false;
  accept = false;
  error = false;
}

-- The constructors of EventBase and SockEventBase.
abbrev pub new_event : SockEvent
new_event = record {
  handle = failure;
  kind = cpu;
  status = init;
  result = no_bits;
  sock_type = base;
  reused = false;
  closed = [];
}

-- The setters of EventBase, and `EventBase::set`, less the callback.
abbrev set_handle : ℤ → SockEvent → SockEvent
set_handle fd e = record e { handle = fd }

abbrev set_result : Bits → SockEvent → SockEvent
set_result evs e = record e { result = evs }

abbrev set_type : Kind → SockEvent → SockEvent
set_type k e = record e { kind = k }

abbrev set_reused : Bool → SockEvent → SockEvent
set_reused re e = record e { reused = re }

abbrev set_status : Status → SockEvent → SockEvent
set_status s e = record e { status = s }

abbrev set : ℤ → Bits → Kind → SockEvent → SockEvent
set fd evs k e = set_type k (set_result evs (set_handle fd e))

unfoldable pub register_accept : ℤ → SockEvent → ℤ × SockEvent
register_accept fd e = if ltb_ℤ fd (pos 0) then (failure, e) else (
  success,
  record e {
    handle = fd;
    kind = net;
    result = record no_bits { readable = true; accept = true };
    sock_type = accept;
  },
)

-- `_cnt`, which nothing reads, is left out here and in `register_write`.
unfoldable pub register_read : ℤ → SockEvent → ℤ × SockEvent
register_read fd e = if ltb_ℤ fd (pos 0) then (failure, e) else (
  success,
  record e {
    handle = fd;
    kind = net;
    result = record no_bits { readable = true };
    sock_type = read;
  },
)

unfoldable pub register_write : ℤ → SockEvent → ℤ × SockEvent
register_write fd e = if ltb_ℤ fd (pos 0) then (failure, e) else (
  success,
  record e {
    handle = fd;
    kind = net;
    result = record no_bits { writeable = true };
    sock_type = write;
  },
)

unfoldable pub register_base : SockEvent → ℤ × SockEvent
register_base e = (success, record e { kind = cpu; sock_type = base })

-- `SockEventBase::clear`.
unfoldable pub clear : SockEvent → SockEvent
clear e =
    if ltb_ℤ (pos 0) e.handle
    then record e { handle = failure; closed = e.handle ∷ e.closed }
    else e

-- `~SockEventBase`, then `~EventBase`.
unfoldable pub destroy : SockEvent → SockEvent
unfolding clear
destroy e = record (clear (clear e)) { handle = failure }

-- `EventCallback`: the callback that runs.
unfoldable pub event_callback :
    {A : Type 0} → (base_cb accept_cb read_cb write_cb tcpconnect_cb : A) → SockType → A
event_callback b a r w t base = b
event_callback b a r w t accept = a
event_callback b a r w t read = r
event_callback b a r w t write = w
event_callback b a r w t tcpconnect = t
