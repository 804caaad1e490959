-- ===== src/Server/Laws.antt =====
-- `run` and `set_sev_socketopt`: the event that is posted, the sockets that are closed, and the options.
use nf_server.Prelude.{
  ℕ, ◌+◌, ◌*◌, ◌<◌, ◌≡◌, refl, ap, ap₂, ◌∙◌, Bool, true, false, some, ◌∷◌, arith,
}
use nf_server.Prelude.Int.{pos, success, failure, ltb_ℤ}
use nf_server.SyncReactor.{net}
use nf_server.SockEvent.{SockEvent, no_bits, register_accept, accept}
use nf_server.Net.Setup.{has_bit}
use nf_server.Server.{
  World, set_sev_socketopt, start_with, bind_socket, nf_server_bind, nf_server_listen, run_bound,
  run_listened, start, start_with, run_server, returned, backlog_of,
}

-- The world with a new socket.
abbrev created : ℕ → World → World
created fd w = record w { svr = record w.svr { listen_socket = pos fd } }

not_negative : (fd : ℕ) → ltb_ℤ (pos fd) (pos 0) ≡ false
not_negative fd = ground arith

nf_server_bind-new :
    (tcp_nodelay fd : ℕ) (bound : Bool) (w : World)
    → ltb_ℤ w.svr.listen_socket (pos 0) ≡ true
    → nf_server_bind tcp_nodelay (pos fd) bound w ≡ bind_socket tcp_nodelay bound (created fd w)
unfolding nf_server_bind
nf_server_bind-new tcp_nodelay fd bound w e = rw (nf_server_bind, e, not_negative fd) refl

-- The event that accepts on the socket, and the world after it was posted.
abbrev pub accepting : ℕ → SockEvent → SockEvent
accepting fd e = record e {
  handle = pos fd;
  kind = net;
  result = record no_bits { readable = true; accept = true };
  sock_type = accept;
  reused = true;
}

abbrev started : ℕ → SockEvent → World → World
started fd e w = record w {
  posted = some (accepting fd e);
  svr = record w.svr { acc_event = some (accepting fd e) };
}

start_with_lem :
    (fd : ℕ) (e : SockEvent) (w : World)
    → start_with true (some e) (pos fd) w ≡ returned success (started fd e w)
unfolding start_with register_accept
start_with_lem fd e w = rw (start_with, not_negative fd) refl

start_lem :
    (fd : ℕ) (e : SockEvent) (w : World)
    → w.svr.listen_socket ≡ pos fd
    → w.svr.has_reactor ≡ true
    → w.svr.acc_event ≡ some e
    → start w ≡ returned success (started fd e w)
unfolding start
start_lem fd e w s act ev =
    ap (λ b. start_with b w.svr.acc_event w.svr.listen_socket w) act
    ∙ ap₂ (λ o k. start_with true o k w) ev s
    ∙ start_with_lem fd e w

-- Where `socket`, `bind` and `listen` succeed and there are a reactor and an event, a server with no socket
-- yet posts just that event, registered to accept on the new socket and kept when it is done, after it
-- listens with a backlog above 0; no descriptor is closed. Where `bind` or `listen` fails, `run` returns -1
-- and posts nothing, and the socket is closed, but the server keeps its number.
pub run_server_lem :
    (tcp_nodelay fd : ℕ) (listens : Bool) (e : SockEvent) (w : World)
    → ltb_ℤ w.svr.listen_socket (pos 0) ≡ true
    → w.svr.has_reactor ≡ true
    → w.svr.acc_event ≡ some e
    → ((w' : World) × (run_server tcp_nodelay (pos fd) true true w ≡ returned success w')
        × (w'.posted ≡ some (accepting fd e))
        × (w'.svr.listen_socket ≡ pos fd)
        × (w'.listening ≡ some (backlog_of w.svr.backlog))
        × (w'.closed ≡ w.closed))
      × ((w' : World) × (run_server tcp_nodelay (pos fd) false listens w ≡ returned failure w')
          × (w'.posted ≡ w.posted)
          × (w'.svr.listen_socket ≡ pos fd)
          × (w'.closed ≡ pos fd ∷ w.closed))
      × ((w' : World) × (run_server tcp_nodelay (pos fd) true false w ≡ returned failure w')
          × (w'.posted ≡ w.posted)
          × (w'.svr.listen_socket ≡ pos fd)
          × (w'.closed ≡ pos fd ∷ w.closed))
unfolding run_server run_bound run_listened nf_server_listen bind_socket set_sev_socketopt
run_server_lem tcp_nodelay fd listens e w none_yet act ev = (
  (
    started fd e listened,
    ap (run_bound true) (new true) ∙ start_lem fd e listened refl act ev,
    refl,
    refl,
    refl,
    refl,
  ),
  (
    (bind_socket tcp_nodelay false (created fd w)).1,
    ap (run_bound listens) (new false),
    refl,
    refl,
    refl,
  ),
  (
    (nf_server_listen false (bind_socket tcp_nodelay true (created fd w)).1).1,
    ap (run_bound false) (new true),
    refl,
    refl,
    refl,
  ),
)
  where
    listened : World
    listened = (nf_server_listen true (bind_socket tcp_nodelay true (created fd w)).1).1

    new :
        (bound : Bool)
        → nf_server_bind tcp_nodelay (pos fd) bound w ≡ bind_socket tcp_nodelay bound (created fd w)
    new bound = nf_server_bind-new tcp_nodelay fd bound w none_yet

-- Where the macro TCP_NODELAY is 1, the options that are set do not depend on the bit NODELAY, the second
-- of `_sockopt`: `l` stands for the first and `d` for those above the second.
pub set_sev_socketopt_lem :
    (tcp_nodelay l d : ℕ) (w : World)
    → tcp_nodelay ≡ 1
    → l < 2
    → (set_sev_socketopt tcp_nodelay
        (record w { svr = record w.svr { sockopt = 4 * d + 2 + l } })).options
      ≡ (set_sev_socketopt tcp_nodelay
          (record w { svr = record w.svr { sockopt = 4 * d + l } })).options
unfolding set_sev_socketopt
set_sev_socketopt_lem tcp_nodelay l d w e h = rw (set_sev_socketopt, e, same4, same1) refl
  where
    same4 : has_bit 4 (4 * d + 2 + l) ≡ has_bit 4 (4 * d + l)
    same4 = ground arith

    same1 : has_bit 1 (4 * d + 2 + l) ≡ has_bit 1 (4 * d + l)
    same1 = ground arith
