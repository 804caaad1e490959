-- ===== src/Reactor/Epoll.antt =====
-- The epoll side of the reactor: `epoll_active_event`, `epoll_unactive_event`, `pause_event` and
-- `resume_event`. `ctl` says which calls of `net_ep_add` succeed; `none` is an access outside `fds`.
use nf_server.Prelude.{
  ℕ, ◌≡◌, ◌≢◌, ◌<◌, Option, none, some, Bool, true, false, not, ◌&&◌, ◌||◌, ◌∷◌, arith, ltb, ◌==◌,
  if◌then◌else◌,
}
use nf_server.Prelude.Int.{ℤ, success, failure}
use nf_server.Reactor.{Event, Reactor, Call, ctl_add, ctl_mod, ctl_del, null, modify}

-- The event in a slot is registered with epoll.
abbrev pub watched : ℕ → Reactor → Bool
watched p r = not (p == null) && (r.ev p).epoll_active

abbrev pub with_epoll : Bool → Event → Event
with_epoll b e = record e { epoll_active = b }

-- The call that `epoll_active_event` makes.
abbrev pub active_call : ℕ → Reactor → Call
active_call p r =
    let fd = (r.ev p).ev_fd in
    let read_on = watched (r.evread fd) r in
    let write_on = watched (r.evwrite fd) r in
    record {
      op = if read_on || write_on then ctl_mod else ctl_add;
      fd = fd;
      epoll_in = read_on || (r.ev p).reads;
      epoll_out = write_on || (r.ev p).writes;
    }

-- The call that `epoll_unactive_event` makes.
abbrev pub unactive_call : ℕ → Reactor → Call
unactive_call p r =
    let fd = (r.ev p).ev_fd in
    if (r.ev p).reads && watched (r.evwrite fd) r
    then record { op = ctl_mod; fd = fd; epoll_in = false; epoll_out = true }
    else if (r.ev p).writes && watched (r.evread fd) r
    then record { op = ctl_mod; fd = fd; epoll_in = true; epoll_out = false }
    else record { op = ctl_del; fd = fd; epoll_in = (r.ev p).reads; epoll_out = (r.ev p).writes }

module _ (ctl : Call → Bool) where
  -- `net_ep_add` of an event, and the flag if it succeeds.
  abbrev apply_call : Call → Bool → ℕ → Reactor → ℤ × Reactor
  apply_call c b p r =
      let r' : Reactor = record r { calls = c ∷ r.calls } in
      if ctl c then (success, modify p (with_epoll b) r') else (failure, r')

  unfoldable pub active_event : ℕ → Reactor → ℤ × Reactor
  active_event p r =
      if ltb r.nfile (r.ev p).ev_fd
      then (failure, r)
      else if (r.ev p).epoll_active
      then (success, r)
      else apply_call (active_call p r) true p r

  unfoldable pub unactive_event : ℕ → Reactor → ℤ × Reactor
  unactive_event p r =
      if ltb r.nfile (r.ev p).ev_fd
      then (failure, r)
      else if not (r.ev p).epoll_active
      then (success, r)
      else apply_call (unactive_call p r) false p r

  -- The test of the file descriptor lets `nfile` through, one past the end of `fds`: `none`.
  unfoldable pub epoll_active_event : ℕ → Reactor → Option (ℤ × Reactor)
  unfolding active_event
  epoll_active_event p r =
      if ((r.ev p).ev_fd == r.nfile) && not (r.ev p).epoll_active
      then none
      else some (active_event p r)

  unfoldable pub epoll_unactive_event : ℕ → Reactor → Option (ℤ × Reactor)
  unfolding unactive_event
  epoll_unactive_event p r =
      if ((r.ev p).ev_fd == r.nfile) && (r.ev p).epoll_active
      then none
      else some (unactive_event p r)

  pub pause_event : ℕ → Reactor → Option (ℤ × Reactor)
  unfolding epoll_unactive_event
  pause_event p r = if (r.ev p).epoll_active then epoll_unactive_event p r else some (success, r)

  pub resume_event : ℕ → Reactor → Option (ℤ × Reactor)
  unfolding epoll_active_event
  resume_event p r = if not (r.ev p).epoll_active then epoll_active_event p r else some (success, r)

  -- The directions that the events in the slots of a file descriptor are registered for.
  abbrev read_watched : ℕ → Reactor → Bool
  read_watched fd r = watched (r.evread fd) r

  abbrev write_watched : ℕ → Reactor → Bool
  write_watched fd r = watched (r.evwrite fd) r

-- What epoll is told to watch for a file descriptor after a call: nothing after EPOLL_CTL_DEL, else the
-- directions of its mask.
abbrev pub told : Call → Bool × Bool
told c = elim c.op [
  | ctl_add ↦ (c.epoll_in, c.epoll_out)
  | ctl_mod ↦ (c.epoll_in, c.epoll_out)
  | ctl_del ↦ (false, false)
]

-- An event for reading or for writing, not both, that is in its slot, with another in the other slot.
pub record IsPlaced (p : ℕ) (r : Reactor) : Type 0 where
  pub not_null : p ≢ null
  pub in_range : (r.ev p).ev_fd < r.nfile
  pub one_way : (r.ev p).writes ≡ not (r.ev p).reads
  pub slot : (if (r.ev p).reads then r.evread (r.ev p).ev_fd else r.evwrite (r.ev p).ev_fd) ≡ p
  pub other : (if (r.ev p).reads then r.evwrite (r.ev p).ev_fd else r.evread (r.ev p).ev_fd) ≢ p

-- When a placed event that is not registered is resumed and `net_ep_add` succeeds, the event is
-- registered, and the one call that was made tells epoll to watch exactly the directions whose events
-- are then registered.
resume_event_lem :
    (ctl : Call → Bool) (p : ℕ) (r : Reactor)
    → IsPlaced p r
    → (r.ev p).epoll_active ≡ false
    → ctl (active_call p r) ≡ true
    → let r' = (active_event ctl p r).1 in
      (resume_event ctl p r ≡ some (success, r'))
      × (r'.calls ≡ active_call p r ∷ r.calls)
      × ((r'.ev p).epoll_active ≡ true)
      × (told (active_call p r)
          ≡ (watched (r.evread (r.ev p).ev_fd) r', watched (r.evwrite (r.ev p).ev_fd) r'))
unfolding resume_event
resume_event_lem ctl p r v off ok = (
  ground (arith, v.in_range),
  ground (arith, v.in_range),
  ground (arith, v.in_range),
  ground (arith, v.in_range, v.not_null, v.one_way, v.slot, v.other),
)

-- When a placed event that is registered is paused and `net_ep_add` succeeds, the event is no longer
-- registered, and the one call that was made tells epoll to watch exactly the directions whose events
-- still are.
pause_event_lem :
    (ctl : Call → Bool) (p : ℕ) (r : Reactor)
    → IsPlaced p r
    → (r.ev p).epoll_active ≡ true
    → ctl (unactive_call p r) ≡ true
    → let r' = (unactive_event ctl p r).1 in
      (pause_event ctl p r ≡ some (success, r'))
      × (r'.calls ≡ unactive_call p r ∷ r.calls)
      × ((r'.ev p).epoll_active ≡ false)
      × (told (unactive_call p r)
          ≡ (watched (r.evread (r.ev p).ev_fd) r', watched (r.evwrite (r.ev p).ev_fd) r'))
unfolding pause_event
pause_event_lem ctl p r v on ok = (
  ground (arith, v.in_range),
  ground (arith, v.in_range),
  ground (arith, v.in_range),
  ground (arith, v.in_range, v.not_null, v.one_way, v.slot, v.other),
)
