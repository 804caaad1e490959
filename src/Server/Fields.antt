-- ===== src/Server/Fields.antt =====
-- The constructors of NfSvr and the calls that set one field or nothing, of nf_server.h and nf_server.cpp.
use nf_server.Prelude.{Bool, true, Option, none, some, if◌then◌else◌}
use nf_server.Prelude.Int.{ℤ, success}
use nf_server.SockEvent.{SockEvent}
use nf_server.Server.{Server, nf_server_create}

-- `NfSvr()`, and `NfSvr(act)`, which asserts that the reactor is not NULL. `_name` is left out.
abbrev new_server : Server
new_server = nf_server_create

abbrev new_server_with : (reactor : Bool) → Option Server
new_server_with reactor =
    if reactor then some (record nf_server_create { has_reactor = true }) else none

abbrev set_reactor : Bool → Server → Server
set_reactor reactor s = record s { has_reactor = reactor }

abbrev set_acc_event : Option SockEvent → Server → Server
set_acc_event ev s = record s { acc_event = ev }

-- `join`, `resume`, `pause` and `destroy`, which do nothing.
abbrev join : Server → ℤ × Server
join s = (success, s)

abbrev resume : Server → ℤ × Server
resume s = (success, s)

abbrev pause : Server → ℤ × Server
pause s = (success, s)

abbrev destroy : Server → ℤ × Server
destroy s = (success, s)
