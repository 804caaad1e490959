-- ===== src/Reactor/Dispatch.antt =====
-- The event loop: `init`, `epoll_dispatch` and `start`. `execute` is `Event::excute`, which is in no file
-- of the repository; what `epoll_wait` returns is an argument.
pub mod Hangup
pub mod Tasks
use nf_server.Prelude.{
  ℕ, ◌≤◌, Bool, true, false, not, ◌&&◌, ◌||◌, Option, none, some, List, [], ◌∷◌, ltb, ◌==◌,
  if◌then◌else◌, update,
}
use nf_server.Prelude.Int.{ℤ, pos, negsuc, success, failure, ltb_ℤ}
use nf_server.Reactor.{Event, Reactor, Call, null}
use nf_server.Reactor.Slots.{set_event_active}
use nf_server.Reactor.Registry.{del_event, is_ok}

-- A result of `epoll_wait`: the slot that its `data.ptr` points at, and the bits of its mask.
pub record Ready : Type 0 where
  pub fd : ℕ
  pub hup : Bool
  pub err : Bool
  pub readable : Bool
  pub writable : Bool

-- What `epoll_wait` returns: -1 with an `errno` other than EINTR, -1 with EINTR, or results.
pub data Wait : Type 0 where
  failed : Wait
  interrupted : Wait
  results : List Ready → Wait

-- `init`: whether `epoll_create`, and the allocations of `events` and `fds`, succeed; `num` is the number
-- of worker threads.
unfoldable pub init :
    (files : ℕ) (num : ℤ) (created has_events has_fds : Bool) → Reactor → ℤ × Reactor
init files num created has_events has_fds r =
    let r' : Reactor = record r { nfile = files } in
    if not created
    then (failure, r')
    else if not has_events
    then (failure, r')
    else if not has_fds
    then (failure, r')
    else (
      success,
      record r' {
        ready = true;
        threaded = r.threaded || ltb_ℤ (pos 0) num;
        evread = λ fd. null;
        evwrite = λ fd. null;
      },
    )

module _ (ctl : Call → Bool) (execute : ℕ → Reactor → Reactor) where
  -- `del_event` for its effect.
  unfoldable pub drop_event : ℕ → Reactor → Option Reactor
  drop_event p r = elim (del_event ctl p r) [ none ↦ none | some (code, r') ↦ some r' ]

  -- The branches for EPOLLHUP and EPOLLERR, which are the same.
  unfoldable pub on_broken : ℕ → Reactor → Option Reactor
  on_broken fd r =
      let evread = r.evread fd in
      let evwrite = r.evwrite fd in
      let both : Option Reactor = elim (drop_event evread r) [
        | none ↦ none
        | some r' ↦ drop_event evwrite r'
      ] in
      if not (evread == null) && not (evwrite == null)
      then (if not (r.ev evread).active && not (r.ev evwrite).active then both else some r)
      else if not (evwrite == null)
      then (if not (r.ev evwrite).active then drop_event evwrite r else some r)
      else if not (evread == null)
      then (if not (r.ev evread).active then drop_event evread r else some r)
      else some r

  -- The switch on the mode: the event runs here, or goes to the pool if it can be made active.
  unfoldable pub run_event : ℕ → Reactor → Reactor
  run_event p r =
      let (won, r') = set_event_active p r in
      if not r.threaded then execute p r else if won then record r' { tasks = p ∷ r'.tasks } else r'

  unfoldable pub dispatch_one : Ready → Reactor → Option Reactor
  dispatch_one e r =
      let evread = r.evread e.fd in
      let evwrite = r.evwrite e.fd in
      if e.hup
      then on_broken e.fd r
      else if e.err
      then on_broken e.fd r
      else if e.readable
      then (if evread == null
          then some r
          else if (r.ev evread).listen
          then some (execute evread r)
          else some (run_event evread r))
      else if e.writable
      then (if evwrite == null then some r else some (run_event evwrite r))
      else some r

  unfoldable pub dispatch_all : List Ready → Reactor → Option Reactor
  dispatch_all [] r = some r
  dispatch_all (e ∷ es) r = elim (dispatch_one e r) [ none ↦ none | some r' ↦ dispatch_all es r' ]

  unfoldable pub epoll_dispatch : Wait → Reactor → Option (ℤ × Reactor)
  epoll_dispatch failed r = if r.ready then some (failure, r) else none
  epoll_dispatch interrupted r = if r.ready then some (success, r) else none
  epoll_dispatch (results es) r =
      if r.ready
      then elim (dispatch_all es r) [ none ↦ none | some r' ↦ some (success, r') ]
      else none

  -- The rounds of `start` until `run` is cleared after those given. A round with no events sleeps.
  unfoldable pub start : List Wait → Reactor → Option (ℤ × Reactor)
  start [] r = some (success, r)
  start (w ∷ ws) r = elim (ltb_ℤ (pos 0) r.event_count) [
    | false ↦ start ws r
    | true ↦ elim (epoll_dispatch w r) [
      | none ↦ none
      | some (code, r') ↦ elim (is_ok code) [ true ↦ start ws r' | false ↦ some (failure, r') ]
    ]
  ]
