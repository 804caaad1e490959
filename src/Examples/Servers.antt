-- ===== src/Examples/Servers.antt =====
-- Examples for nf_server.cpp and for the waits and set-up of net.cpp.
use nf_server.Prelude.{
  ℕ, ◌==◌, ◌≡◌, refl, true, false, not, none, some, List, [], ◌∷◌, if◌then◌else◌, arith,
}
use nf_server.Prelude.Int.{ℤ, pos, success, failure}
use nf_server.SockEvent.{new_event}
use nf_server.Server.{World, nf_server_create, run_server, returned, backlog_of}
use nf_server.Server.Laws.{accepting, run_server_lem}
use nf_server.Net.{Got, got, failed, eintr, eagain}
use nf_server.Timer.{Timeval}
use nf_server.Net.Timed.{Socket, Round, Script, readn_to_ms}
use nf_server.Net.Timed.Restore.{nothing, round, IsServed, IsResult, readn_to_ms_lem}
use nf_server.Net.Setup.{Calls, in_progress, ready, connect_error, net_connect_to_tv}
use nf_server.Net.Setup.Laws.{net_connect_to_tv_lem}

abbrev world : World
world = record {
  svr = record nf_server_create { has_reactor = true; acc_event = some new_event };
  options = [];
  closed = [];
  listening = none;
  posted = none;
}

run_server_lem_example :
    ((w' : World) × (run_server 1 (pos 9) true true world ≡ returned success w')
      × (w'.posted ≡ some (accepting 9 new_event))
      × (w'.svr.listen_socket ≡ pos 9)
      × (w'.listening ≡ some (backlog_of world.svr.backlog))
      × (w'.closed ≡ []))
    × ((w' : World) × (run_server 1 (pos 9) false true world ≡ returned failure w')
        × (w'.posted ≡ none)
        × (w'.svr.listen_socket ≡ pos 9)
        × (w'.closed ≡ pos 9 ∷ []))
    × ((w' : World) × (run_server 1 (pos 9) true false world ≡ returned failure w')
        × (w'.posted ≡ none)
        × (w'.svr.listen_socket ≡ pos 9)
        × (w'.closed ≡ pos 9 ∷ []))
unfolding nf_server_create
run_server_lem_example = run_server_lem 1 9 true new_event world refl refl refl

abbrev moment : Timeval
moment = record { tv_sec = 5; tv_usec = 0 }

abbrev socket : Socket
socket = record { nonblock = true; rcvtimeo = moment; sndtimeo = moment }

-- One byte comes in each round, the first after an interruption.
abbrev rounds : List (Round Got)
rounds =
    record { set_ok = true; calls = failed eintr ∷ got (65 ∷ []) ∷ []; cur = moment; last = moment }
    ∷ record { set_ok = true; calls = got (66 ∷ []) ∷ []; cur = moment; last = moment }
    ∷ []

abbrev script : Script Got
script = record {
  first = failed eagain;
  getsockopt_ok = true;
  getfl_ok = true;
  setfl_ok = true;
  rounds = rounds;
  restore_flag_ok = true;
  restore_opt_ok = true;
}

script-IsServed : IsServed script
script-IsServed = record {
  getsockopt_ok = refl;
  getfl_ok = refl;
  setfl_ok = refl;
  restore_flag_ok = refl;
  restore_opt_ok = refl;
}

readn_to_ms_lem_example :
    (n : ℤ) × (buf : List ℕ) × (readn_to_ms script 2 (pos 100) socket ≡ some (n, buf, socket))
    × IsResult 2 n buf
readn_to_ms_lem_example =
    readn_to_ms_lem script 2 (pos 100) socket script-IsServed
      (round _ (got (65 ∷ [])) refl refl (round _ (got (66 ∷ [])) refl refl nothing)) (omega arith)
      (omega arith)

-- A connection that is refused after a wait.
abbrev calls : Calls
calls = record {
  getfl = true;
  setfl = true;
  connect = in_progress;
  select = ready;
  so_error = some 111;
}

net_connect_to_tv_lem_example :
    net_connect_to_tv calls true true (record { flags = 2; is_open = true }) ≡ (
      if connect_error calls == 0
      then (success, record { flags = 2; is_open = true })
      else (failure, record { flags = 2; is_open = not true }))
net_connect_to_tv_lem_example = net_connect_to_tv_lem calls true 2 refl refl
