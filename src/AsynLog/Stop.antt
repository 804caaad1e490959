-- ===== src/AsynLog/Stop.antt =====
-- `Log::stop` while the thread waits for a line.
use nf_server.Prelude.{ℕ, ◌≡◌, refl, false, none, some, List, [], ◌∷◌}
use nf_server.Config.{Bytes}
use nf_server.AsynLog.{Log, log_run, inside, waiting, ended, stop, push, write_log, write_inside}

-- A log whose thread waits over no lines.
abbrev pub idle : ℕ → List Bytes → Log
idle level file = record {
  status = log_run;
  level = level;
  log_buffer = [];
  file = file;
  writer = waiting;
  locked = false;
}

-- Where the thread of `write_log` waits over no lines, `stop` does not wake it. The next line wakes it, but
-- it returns without writing the line and without giving the mutex back, so whoever logs after that never
-- returns.
pub push-stop :
    (line line' : Bytes) (level : ℕ) (file : List Bytes)
    → (write_log (stop (idle level file)) ≡ stop (idle level file))
      × ((l : Log) × (push line (stop (idle level file)) ≡ some l)
          × ((write_log l).writer ≡ ended)
          × ((write_log l).file ≡ file)
          × (push line' (write_log l) ≡ none))
unfolding push write_log write_inside
push-stop line line' level file = (
  refl,
  (
    record (stop (idle level file)) { log_buffer = line ∷ []; writer = inside },
    refl,
    refl,
    refl,
    refl,
  ),
)
