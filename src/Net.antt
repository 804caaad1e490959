-- ===== src/Net.antt =====
-- net.cpp: the loops around `read` and `write`, the buffered reader `rio_t`, and `find_line`. What the
-- system calls return is a script, one entry for each call; a loop that is still waiting when the
-- script ends gives `none`. Bytes are numbers and the counts are below 2 ^ 31.
pub mod Transfer
pub mod Rio
pub mod Line
pub mod Timed
pub mod Setup
mod Epoll
use nf_server.Prelude.{ℕ, List}

-- The values of `errno` that the loops tell apart.
pub data Errno : Type 0 where
  eintr eagain other : Errno

-- What `read` returns: the bytes, none at the end of the stream, or -1.
pub data Got : Type 0 where
  got : List ℕ → Got
  failed : Errno → Got

-- What `write` returns.
pub data Wrote : Type 0 where
  wrote : ℕ → Wrote
  refused : Errno → Wrote
