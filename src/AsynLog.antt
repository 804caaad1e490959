-- ===== src/AsynLog.antt =====
-- commonn/asynLog.h and commonn/asynLog.cpp: the lines of the log, the threads that produce them and the
-- one that writes them. The time of day as text and the message, which `vsprintf` formats, are arguments.
-- What is done under `log_mutex` is one step; `locked` says that a thread ended without giving it back.
pub mod Lines
pub mod Stop
pub mod Steps
pub mod Order
pub mod Early
use nf_server.Prelude.{
  ℕ, zero, suc, ◌+◌, Bool, true, false, Option, none, some, List, [], ◌∷◌, ◌++◌, ◌==◌, leb,
  if◌then◌else◌, length, take, replicate,
}
use nf_server.Config.{Bytes}
use nf_server.Buffer.{Outcome, done, threw, out_of_bounds, ◌>>=◌, memcpy, overwrite}

abbrev pub log_maxline : ℕ
log_maxline = 1024

-- The levels, by their numbers: LOG_DEBUG, LOG_NOTICE, LOG_WARN and LOG_ERROR.
pub data Level : Type 0 where
  debug notice warn error : Level

abbrev pub number : Level → ℕ
number debug = 0
number notice = 1
number warn = 2
number error = 3

-- `str_prefix`.
abbrev pub str_prefix : Level → Bytes
str_prefix debug = b'[' ∷ b'D' ∷ b'E' ∷ b'B' ∷ b'U' ∷ b'G' ∷ b']' ∷ b' ' ∷ b' ' ∷ b' ' ∷ []
str_prefix notice = b'[' ∷ b'N' ∷ b'O' ∷ b'T' ∷ b'I' ∷ b'C' ∷ b'E' ∷ b']' ∷ b' ' ∷ b' ' ∷ []
str_prefix warn = b'[' ∷ b'W' ∷ b'A' ∷ b'R' ∷ b'N' ∷ b']' ∷ b' ' ∷ b' ' ∷ b' ' ∷ b' ' ∷ []
str_prefix error = b'[' ∷ b'E' ∷ b'R' ∷ b'R' ∷ b'O' ∷ b'R' ∷ b']' ∷ b' ' ∷ b' ' ∷ b' ' ∷ []

-- The bytes before the first 0.
unfoldable pub c_str : Bytes → Bytes
c_str [] = []
c_str (c ∷ cs) = if c == 0 then [] else c ∷ c_str cs

-- `add_prefix`, to the start of the line.
unfoldable pub add_prefix : Bytes → Bytes → Outcome Bytes
unfolding c_str
add_prefix s add = memcpy s 0 (c_str add)

-- `ctime(&s[9], 20)`.
unfoldable pub ctime : Bytes → Bytes → Outcome Bytes
ctime s time = memcpy s 9 (take 19 time ++ (0 ∷ []))

-- The string that `produce_log` builds: `log_maxline` bytes and the 0 that ends a `std::string`.
unfoldable pub format : Level → (time message : Bytes) → Outcome Bytes
unfolding add_prefix ctime
format event time message = add_prefix (replicate (log_maxline + 1) 0) (str_prefix event) >>= λ s.
    ctime s time >>= λ s'.
    memcpy s' 23 (b' ' ∷ b' ' ∷ []) >>= λ s''. memcpy s'' 25 (message ++ (0 ∷ []))

pub data LogStatus : Type 0 where
  log_init log_run log_stop : LogStatus

-- The thread of `write_log`: it is at the top of its loop, is about to look at the lines with the mutex,
-- waits for a signal, or has returned.
pub data Writer : Type 0 where
  looping inside waiting ended : Writer

pub record Log : Type 0 where
  pub status : LogStatus
  pub level : ℕ
  pub log_buffer : List Bytes
  pub file : List Bytes
  pub writer : Writer
  pub locked : Bool

-- `pthread_cond_signal`.
abbrev pub signal : Writer → Writer
signal looping = looping
signal inside = inside
signal waiting = inside
signal ended = ended

-- The end of `produce_log`, which takes the mutex; nothing is ever pushed where it is not given back.
unfoldable pub push : Bytes → Log → Option Log
push line l =
    let buffer = l.log_buffer ++ (line ∷ []) in
    if l.locked
    then none
    else some (record l {
      log_buffer = buffer;
      writer = if length buffer == 1 then signal l.writer else l.writer;
    })

-- `DEBUG`, `NOTICE`, `WARN` and `ERROR`.
unfoldable pub produce_log : Level → (time message : Bytes) → Log → Outcome (Option Log)
unfolding push format
produce_log event time message l =
    let out = format event time message >>= λ line. done (push line l) in
    if leb l.level (number event) then out else done (some l)

-- `while(STATUS == LOG_RUN)` and `if(STATUS != LOG_RUN)`.
abbrev pub is_run : LogStatus → Bool
is_run log_init = false
is_run log_run = true
is_run log_stop = false

-- What the thread does with the mutex; it returns without giving it back.
unfoldable pub write_inside : Log → Log
write_inside l = elim l.log_buffer [
  | [] ↦
      if is_run l.status
      then record l { writer = waiting }
      else record l { writer = ended; locked = true }
  | line ∷ rest ↦
      if is_run l.status
      then record l { log_buffer = rest; file = l.file ++ (c_str line ∷ []); writer = looping }
      else record l { writer = ended; locked = true }
]

-- A step of `write_log`.
unfoldable pub write_log : Log → Log
unfolding write_inside
write_log l = elim l.writer [
  | looping ↦ record l { writer = if is_run l.status then inside else ended }
  | inside ↦ write_inside l
  | waiting ↦ l
  | ended ↦ l
]

-- `Log::stop`, `set_level` and `set_status`.
abbrev pub set_status : LogStatus → Log → Log
set_status status l = record l { status = status }

abbrev pub stop : Log → Log
stop l = set_status log_stop l

abbrev pub set_level : ℕ → Log → Log
set_level level l = record l { level = level }
