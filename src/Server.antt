-- ===== src/Server.antt =====
-- nf_server.h and nf_server.cpp: the server's settings, its listening socket and how it starts. What the
-- system calls return is an argument, and so are `atoi`, which gives an `int`, and the value of the
-- macro TCP_NODELAY of <netinet/tcp.h>. `Log::init`, `Log::set_level` and `Allocate::init`, which `init`
-- calls, are left out.
pub mod Key
pub mod Laws
pub mod Load
mod Fields
use nf_server.Prelude.{
  ℕ, zero, suc, ◌+◌, ◌-◌, ◌*◌, ◌^◌, Bool, true, false, not, Option, none, some, List, [], ◌∷◌, ◌++◌,
  if◌then◌else◌,
}
use nf_server.Prelude.Int.{ℤ, pos, negsuc, success, failure, ltb_ℤ}
use nf_server.Config.{Bytes, Section, get_item}
use nf_server.SockEvent.{SockEvent, register_accept}
use nf_server.Net.Setup.{has_bit}

pub data SvrStatus : Type 0 where
  initial stopped : SvrStatus

-- `_nf_server_t`; `_sock_family` never changes.
pub record Server : Type 0 where
  pub svr_type : ℕ
  pub backlog : ℕ
  pub port : ℕ
  pub connect_to : ℕ
  pub read_to : ℕ
  pub write_to : ℕ
  pub session_to : ℕ
  pub max_session : ℕ
  pub listen_socket : ℤ
  pub sockopt : ℕ
  pub has_reactor : Bool
  pub acc_event : Option SockEvent
  pub status : SvrStatus

-- `nf_server_create`.
unfoldable pub nf_server_create : Server
nf_server_create = record {
  svr_type = 0;
  backlog = 2048;
  port = 80;
  connect_to = 60;
  read_to = 60;
  write_to = 60;
  session_to = 120;
  max_session = 500000;
  listen_socket = failure;
  sockopt = 0;
  has_reactor = false;
  acc_event = none;
  status = initial;
}

-- An `int` as a `size_t`.
abbrev pub to_size : ℤ → ℕ
to_size (pos n) = n
to_size (negsuc n) = 2 ^ 64 - suc n

abbrev pub number : (Bytes → ℤ) → Bytes → Section → ℕ
number atoi key sec = to_size (atoi (get_item key sec))

-- `NfSvr::init`.
unfoldable pub init : (Bytes → ℤ) → Section → Server → ℤ × Server
init atoi sec s = (
  success,
  record s {
    port = number atoi Key.listen_port sec;
    connect_to = number atoi Key.connect_to sec;
    read_to = number atoi Key.read_to sec;
    write_to = number atoi Key.write_to sec;
    session_to = number atoi Key.session_to sec;
    svr_type = number atoi Key.svr_type sec;
    max_session = number atoi Key.sock_num sec;
  },
)

-- The options that `setsockopt` sets.
pub data SockOpt : Type 0 where
  reuseaddr nodelay linger : SockOpt
  defer_accept : ℕ → SockOpt

-- The server and what it did: options of its socket, descriptors that were closed, the newest first, the
-- backlog of `listen`, and the event that was posted.
pub record World : Type 0 where
  pub svr : Server
  pub options : List SockOpt
  pub closed : List ℤ
  pub listening : Option ℕ
  pub posted : Option SockEvent

abbrev pub add_if : Bool → SockOpt → List SockOpt → List SockOpt
add_if b o os = if b then os ++ (o ∷ []) else os

-- `set_sev_socketopt`.
unfoldable pub set_sev_socketopt : ℕ → World → World
set_sev_socketopt tcp_nodelay w =
    let opt = w.svr.sockopt in
    record w {
      options =
          add_if (has_bit 4 opt) (defer_accept w.svr.connect_to)
            (add_if (has_bit tcp_nodelay opt) linger (add_if (has_bit 1 opt) nodelay w.options));
    }

-- What `socket` gives, where there is no socket yet.
abbrev pub with_socket : ℤ → World → World
with_socket fd w =
    if ltb_ℤ w.svr.listen_socket (pos 0)
    then record w { svr = record w.svr { listen_socket = fd } }
    else w

-- `nf_server_bind` once there is a socket.
unfoldable pub bind_socket : ℕ → Bool → World → ℤ × World
unfolding set_sev_socketopt
bind_socket tcp_nodelay bound w =
    let w' = set_sev_socketopt tcp_nodelay (record w { options = w.options ++ (reuseaddr ∷ []) }) in
    if bound
    then (success, w')
    else (failure, record w' { closed = w'.svr.listen_socket ∷ w'.closed })

-- `nf_server_bind`.
unfoldable pub nf_server_bind : ℕ → ℤ → Bool → World → ℤ × World
unfolding bind_socket
nf_server_bind tcp_nodelay fd bound w =
    let w' = with_socket fd w in
    let rest = bind_socket tcp_nodelay bound w' in
    if ltb_ℤ w'.svr.listen_socket (pos 0) then (failure, w') else rest

-- The backlog, 5 where the setting is 0; `int` holds it.
abbrev pub backlog_of : ℕ → ℕ
backlog_of zero = 5
backlog_of (suc n) = suc n

-- `nf_server_listen`.
unfoldable pub nf_server_listen : Bool → World → ℤ × World
nf_server_listen listens w =
    if listens
    then (success, record w { listening = some (backlog_of w.svr.backlog) })
    else (failure, record w { closed = w.svr.listen_socket ∷ w.closed })

-- `run` returns, or an assertion fails.
pub data Ran : Type 0 where
  returned : ℤ → World → Ran
  aborted : Ran

-- `run` once the socket listens: with a reactor or not, the event and the socket.
unfoldable pub start_with : Bool → Option SockEvent → ℤ → World → Ran
unfolding register_accept
start_with false event fd w = aborted
start_with true none fd w = aborted
start_with true (some e) fd w =
    let e' : SockEvent = record (register_accept fd e).1 { reused = true } in
    returned success (record w { posted = some e'; svr = record w.svr { acc_event = some e' } })

unfoldable pub start : World → Ran
unfolding start_with
start w = start_with w.svr.has_reactor w.svr.acc_event w.svr.listen_socket w

-- `run` after `nf_server_listen`, and after `nf_server_bind`.
unfoldable pub run_listened : ℤ × World → Ran
unfolding start
run_listened (negsuc n, w) = returned failure w
run_listened (pos n, w) = start w

unfoldable pub run_bound : Bool → ℤ × World → Ran
unfolding run_listened nf_server_listen
run_bound listens (negsuc n, w) = returned failure w
run_bound listens (pos n, w) = run_listened (nf_server_listen listens w)

-- `run`; the reactor runs until it is stopped.
unfoldable pub run_server : ℕ → ℤ → (bound listens : Bool) → World → Ran
unfolding nf_server_bind run_bound
run_server tcp_nodelay fd bound listens w =
    run_bound listens (nf_server_bind tcp_nodelay fd bound w)

-- `stop`, less the reactor's own `stop`.
unfoldable pub stop : Server → Server
stop s = record s { status = stopped }
