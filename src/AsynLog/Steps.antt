-- ===== src/AsynLog/Steps.antt =====
-- A log from `Log::init` on: the threads that log and the one of `write_log`.
use nf_server.Prelude.{ℕ, zero, suc, ◌≡◌, Bool, false, some, List, [], ◌∷◌, ◌++◌, if◌then◌else◌}
use nf_server.Prelude.Int.{ℤ, success, failure}
use nf_server.Config.{Bytes}
use nf_server.AsynLog.{Log, log_init, log_run, looping, ended, push, write_log, c_str}

-- What `fprintf` makes of the lines.
abbrev pub strings : List Bytes → List Bytes
strings [] = []
strings (line ∷ lines) = c_str line ∷ strings lines

-- The threads that log push these lines, and the writer makes steps, in any order.
pub data Steps (l : Log) : List Bytes → Log → Type 0 where
  none_yet : Steps l [] l
  pushes :
      {lines : List Bytes} {t u : Log} (line : Bytes)
      → Steps l lines t
      → push line t ≡ some u
      → Steps l (lines ++ (line ∷ [])) u
  writes : {lines : List Bytes} {t : Log} → Steps l lines t → Steps l lines (write_log t)

-- `n` steps of the thread.
unfoldable pub write_times : ℕ → Log → Log
write_times zero l = l
write_times (suc n) l = write_times n (write_log l)

-- `set_file`, on what the file holds.
abbrev pub set_file : List Bytes → Log → Log
set_file file l = record l { file = file }

-- `init`, on a file that `fopen` empties: whether `fopen` and `pthread_create` succeed, and how many steps
-- the new thread makes before STATUS is set.
unfoldable pub init : (opened created : Bool) → (early : ℕ) → Log → ℤ × Log
unfolding write_times
init opened created early l =
    let unlocked : Log = record l { locked = false } in
    let opened_log : Log = set_file [] unlocked in
    let started : Log = write_times early (record opened_log { writer = looping }) in
    if opened
    then (if created then (success, record started { status = log_run }) else (failure, opened_log))
    else (failure, unlocked)

-- The log before `init`.
abbrev pub unopened : ℕ → Log
unopened level = record {
  status = log_init;
  level = level;
  log_buffer = [];
  file = [];
  writer = ended;
  locked = false;
}
