-- ===== src/LineEvent.antt =====
-- NfUnit/lineEvent.h and NfUnit/lineEvent.cpp: an event that reads lines into one buffer and writes from
-- another. The scripts of `read` and `write` are arguments, as is what `Allocate::allocate` returns, and
-- the two callbacks for finished work, which the user writes. The callback for a line may take bytes off
-- the read buffer, but no more than there are, and leaves its block in place.
pub mod Write
pub mod Read
use nf_server.Prelude.{
  ℕ, zero, suc, ◌+◌, ◌-◌, Bool, true, false, Option, none, some, List, [], ◌∷◌, ◌++◌, ◌==◌,
  if◌then◌else◌, get_elem?, length,
}
use nf_server.Prelude.Int.{ℤ, pos, negsuc, failure, ltb_ℤ, pos_part}
use nf_server.SyncReactor.{Status, canceled}
use nf_server.SockEvent.{SockEvent, no_bits, new_event, register_read, register_write}
use nf_server.Net.{Got, Wrote}
use nf_server.Net.Transfer.{readn, sendn}
use nf_server.Buffer.{
  Buffer, Outcome, done, threw, out_of_bounds, overflow, bytes_of, is_null, null_buffer, init,
  get_empty_size, get_unhandle_num, add_unhandle_num, fresh_cache, memcpy, check_empty_space,
  add_handl_num,
}
use nf_server.Buffer.Inv.{unhandled}

-- `sent` holds the bytes that `write` has taken so far, and `flag` is `_read_buff_flag`.
pub record LineEvent : Type 0 where
  pub sock : SockEvent
  pub read_buffer : Buffer
  pub write_buffer : Buffer
  pub flag : ℤ
  pub sent : List ℕ

-- A callback ends, waits for a system call that the script does not have, throws, leaves a block or overflows.
pub data Run : Type 0 where
  finished : LineEvent → Run
  waiting : Run
  crashed : Run

abbrev pub init_one : Option (List ℕ) → ℕ → Buffer → Outcome Buffer
init_one got size b = if is_null b.cache then init got size else done b

-- `initBuffer`, with the blocks for the two buffers.
unfoldable pub init_buffer : Option (List ℕ) → Option (List ℕ) → ℕ → LineEvent → Run
init_buffer got got' size e = elim (init_one got size e.read_buffer) [
  | threw ↦ crashed
  | out_of_bounds ↦ crashed
  | overflow ↦ crashed
  | done r ↦ elim (init_one got' size e.write_buffer) [
    | threw ↦ crashed
    | out_of_bounds ↦ crashed
    | overflow ↦ crashed
    | done w ↦ finished (record e { read_buffer = r; write_buffer = w })
  ]
]

-- `setStatus(CANCELED)` and `setResult(ERROR)`.
abbrev pub cancel : LineEvent → LineEvent
cancel e = record e {
  sock = record e.sock { status = canceled; result = record no_bits { error = true } };
}

-- `write_callback` after `sendn`.
unfoldable pub write_done : Option (ℤ × List ℕ) → LineEvent → Run
write_done none e = waiting
write_done (some (negsuc n, out)) e = finished (cancel (record e { sent = e.sent ++ out }))
write_done (some (pos zero, out)) e = finished (cancel (record e { sent = e.sent ++ out }))
write_done (some (pos (suc n), out)) e =
    let e' : LineEvent = record e {
      write_buffer = add_handl_num (suc n) e.write_buffer;
      sent = e.sent ++ out;
    } in
    if ltb_ℤ (pos 0) (get_unhandle_num e'.write_buffer)
    then finished e'
    else finished (record e' { sock = (register_read e'.sock.handle e'.sock).1 })

-- `write_callback`.
unfoldable pub write_callback : List Wrote → LineEvent → Run
unfolding write_done
write_callback ws e = write_done (sendn ws (unhandled e.write_buffer)) e

-- The end of `read_callback`: what is written at once, and the registration of the rest.
unfoldable pub register_rest : Run → Run
unfolding register_write
register_rest (finished e) =
    if ltb_ℤ (pos 0) (get_unhandle_num e.write_buffer)
    then finished (record e { sock = (register_write e.sock.handle e.sock).1 })
    else finished e
register_rest waiting = waiting
register_rest crashed = crashed

unfoldable pub write_back : List Wrote → LineEvent → Run
unfolding register_rest
write_back ws e =
    register_rest
      (if ltb_ℤ (pos 0) (get_unhandle_num e.write_buffer) then write_callback ws e else finished e)

-- The loop of `read_callback` from `i` on, with `k` rounds to go; `from` is where `tmp` points.
unfoldable pub scan : (LineEvent → LineEvent) → (from i k : ℕ) → LineEvent → Run
scan line_done from i zero e = finished e
scan line_done from i (suc k) e = elim (get_elem? (bytes_of e.read_buffer.cache) (from + i)) [
  | none ↦ crashed
  | some c ↦
      scan line_done from (i + 1) k
        (if c == b'\n' then line_done (record e { flag = pos (i + 1) }) else e)
]

-- After the loop.
unfoldable pub read_end : List Wrote → Run → Run
unfolding write_back
read_end ws waiting = waiting
read_end ws crashed = crashed
read_end ws (finished e) = elim (check_empty_space e.read_buffer) [
  | threw ↦ crashed
  | out_of_bounds ↦ crashed
  | overflow ↦ crashed
  | done b ↦ write_back ws (record e { read_buffer = b })
]

-- The bytes that `readn` stored behind the unhandled ones.
unfoldable pub store : List ℕ → Buffer → Outcome Buffer
store ys b = elim (memcpy (bytes_of b.cache) b.end_next ys) [
  | threw ↦ threw
  | out_of_bounds ↦ out_of_bounds
  | overflow ↦ overflow
  | done block ↦ done (record b { cache = some block })
]

-- `read_callback` after `readn`.
unfoldable pub read_done :
    (LineEvent → LineEvent) → List Wrote → Option (ℤ × List ℕ) → LineEvent → Run
unfolding store read_end scan
read_done line_done ws none e = waiting
read_done line_done ws (some (n, ys)) e = elim (store ys e.read_buffer) [
  | threw ↦ crashed
  | out_of_bounds ↦ crashed
  | overflow ↦ crashed
  | done b ↦
      let e' : LineEvent = record e { read_buffer = add_unhandle_num (pos_part n) b } in
      let rest =
        read_end ws (scan line_done b.str_idx 0 (pos_part (get_unhandle_num e'.read_buffer)) e') in
      if ltb_ℤ n (pos 0) then finished (cancel (record e { read_buffer = b })) else rest
]

-- `read_callback`; `got` is the block for `fresh_cache`, where it is reached.
unfoldable pub read_callback :
    (LineEvent → LineEvent) → Option (List ℕ) → List Got → List Wrote → LineEvent → Run
unfolding read_done
read_callback line_done got gs ws e =
    elim (if ltb_ℤ (get_empty_size e.read_buffer) (pos 512)
      then fresh_cache got 512 e.read_buffer
      else done e.read_buffer) [
        | threw ↦ crashed
        | out_of_bounds ↦ crashed
        | overflow ↦ crashed
        | done b ↦
            read_done line_done ws (readn gs (pos_part (get_empty_size b)))
              (record e { read_buffer = b })
      ]

-- What `accept` returns.
pub data Accepted : Type 0 where
  accepted : ℕ → Accepted
  interrupted : Accepted
  refused : Accepted

-- `net_accept`.
unfoldable pub net_accept : List Accepted → Option ℤ
net_accept [] = none
net_accept (accepted fd ∷ as_) = some (pos fd)
net_accept (interrupted ∷ as_) = net_accept as_
net_accept (refused ∷ as_) = some failure

-- The event for a client.
abbrev pub client : ℤ → LineEvent
client fd = record {
  sock = record (register_read fd new_event).1 { reused = true };
  read_buffer = null_buffer;
  write_buffer = null_buffer;
  flag = failure;
  sent = [];
}

-- `accept_callback`: the event that is posted, if one is; `unblocked` says whether `set_fd_noblock`
-- succeeds. The callbacks are those of the accepting event.
unfoldable pub accept_callback : List Accepted → (ℤ → Bool) → Option (Option LineEvent)
unfolding net_accept register_read
accept_callback as_ unblocked = elim (net_accept as_) [
  | none ↦ none
  | some fd ↦
      if ltb_ℤ fd (pos 0)
      then some none
      else if unblocked fd
      then some (some (client fd))
      else some none
]
