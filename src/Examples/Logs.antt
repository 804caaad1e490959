-- ===== src/Examples/Logs.antt =====
-- Examples for commonn/asynLog.cpp from `init` on.
use nf_server.Prelude.{◌*◌, ◌≡◌, refl, true, false, [], ◌∷◌, ◌++◌, arith, length}
use nf_server.Prelude.Int.{success}
use nf_server.Config.{Bytes}
use nf_server.AsynLog.{Log, log_run, inside, ended, push, write_log, write_inside, c_str}
use nf_server.AsynLog.Steps.{strings, Steps, none_yet, pushes, writes, write_times, init, unopened}
use nf_server.AsynLog.Order.{file-Steps}
use nf_server.AsynLog.Early.{init-Steps}

abbrev one : Bytes
one = b'o' ∷ b'n' ∷ 0 ∷ 7 ∷ []

abbrev two : Bytes
two = b't' ∷ b'w' ∷ []

abbrev logged : Log
logged = record {
  status = log_run;
  level = 1;
  log_buffer = two ∷ [];
  file = (b'o' ∷ b'n' ∷ []) ∷ [];
  writer = inside;
  locked = false;
}

logs : Steps (init true true 0 (unopened 1)).1 (one ∷ two ∷ []) logged
unfolding init push write_log write_inside c_str
logs = writes (writes (pushes two (writes (pushes one none_yet refl)) refl))

file-Steps_example :
    (logged.file ++ strings logged.log_buffer ≡ strings (one ∷ two ∷ []))
    × ((write_times (2 * length logged.log_buffer) logged).file ≡ strings (one ∷ two ∷ []))
    × ((write_times (2 * length logged.log_buffer) logged).log_buffer ≡ [])
file-Steps_example = file-Steps 1 (one ∷ two ∷ []) {l = logged} logs

abbrev silent : Log
silent = record {
  status = log_run;
  level = 1;
  log_buffer = one ∷ [];
  file = [];
  writer = ended;
  locked = false;
}

stays_silent : Steps (init true true 1 (unopened 1)).1 (one ∷ []) silent
unfolding init push write_log
stays_silent = writes (pushes one none_yet refl)

init-Steps_example :
    ((init true true 1 (unopened 1)).0 ≡ success)
    × (silent.file ≡ [])
    × (silent.log_buffer ≡ one ∷ [])
init-Steps_example = init-Steps 1 1 (one ∷ []) {l = silent} (omega arith) stays_silent
