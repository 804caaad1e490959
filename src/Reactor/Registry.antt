-- ===== src/Reactor/Registry.antt =====
-- Adding and deleting events: `event_queue_insert`, `event_queue_remove`, `epoll_add_event`,
-- `epoll_del_event`, `add_event` and `del_event`. `none` is a failed `assert` or an access outside the
-- `nfile` entries of `fds`.
pub mod Add
pub mod Delete
use nf_server.Prelude.{
  ℕ, ◌-◌, Bool, true, false, not, ◌&&◌, ◌||◌, Option, none, some, List, [], ◌∷◌, ◌++◌, ltb, ◌==◌,
  if◌then◌else◌, update,
}
use nf_server.Prelude.Int.{ℤ, pos, negsuc, success, failure, ◌+ℤ◌}
use nf_server.Reactor.{Event, Reactor, Call, null, modify, free}
use nf_server.Reactor.Slots.{
  set_event_active, set_event_unactive, set_io_event_active, set_io_event_unactive,
}
use nf_server.Reactor.Epoll.{epoll_active_event, epoll_unactive_event}

-- `event_queue_insert(ev, EV_INSERTED)`.
pub event_queue_insert : ℕ → Reactor → Reactor
event_queue_insert p r = record (modify p (λ e. record e { inserted = true; owned = true }) r) {
  ev_list = r.ev_list ++ (p ∷ []);
}

-- The list without the event that `ev_pos` points at.
unfoldable pub erase : ℕ → List ℕ → List ℕ
erase p [] = []
erase p (q ∷ qs) = if q == p then qs else q ∷ erase p qs

-- `event_queue_remove(ev, EV_INSERTED)`.
pub event_queue_remove : ℕ → Reactor → Reactor
event_queue_remove p r =
    if not (r.ev p).inserted
    then r
    else record (modify p (λ e. record e { inserted = false; owned = false }) r) {
      ev_list = erase p r.ev_list;
    }

-- An event that was in the slot is deleted.
abbrev free_slot : ℕ → Reactor → Reactor
free_slot p r = if p == null then r else free p r

abbrev put_read : ℕ → Reactor → Reactor
put_read p r =
    let fd = (r.ev p).ev_fd in
    if (r.ev p).reads
    then record (free_slot (r.evread fd) r) { evread = update r.evread fd p }
    else r

abbrev put_write : ℕ → Reactor → Reactor
put_write p r =
    let fd = (r.ev p).ev_fd in
    if (r.ev p).writes
    then record (free_slot (r.evwrite fd) r) { evwrite = update r.evwrite fd p }
    else r

-- `epoll_add_event` with an index inside `fds`, or one that it refuses.
pub add_slot : ℕ → Reactor → ℤ × Reactor
add_slot p r =
    if ltb r.nfile (r.ev p).ev_fd
    then (failure, r)
    else let r' = put_write p (put_read p r) in
      (success, record r' { event_count = r'.event_count +ℤ pos 1 })

-- The test lets `nfile` through, one past the end of `fds`.
pub epoll_add_event : ℕ → Reactor → Option (ℤ × Reactor)
unfolding add_slot
epoll_add_event p r = if (r.ev p).ev_fd == r.nfile then none else some (add_slot p r)

-- `epoll_del_event` with an index inside `fds`, or one that it refuses.
pub del_slot : ℕ → Reactor → ℤ × Reactor
del_slot p r =
    let fd = (r.ev p).ev_fd in
    if ltb r.nfile fd
    then (failure, r)
    else if (r.ev p).reads
    then (
      success,
      record (if r.evread fd == null then r else free p r) {
        evread = update r.evread fd null;
        event_count = r.event_count +ℤ negsuc 0;
      },
    )
    else if (r.ev p).writes
    then (
      success,
      record (if r.evwrite fd == null then r else free p r) {
        evwrite = update r.evwrite fd null;
        event_count = r.event_count +ℤ negsuc 0;
      },
    )
    else (success, r)

pub epoll_del_event : ℕ → Reactor → Option (ℤ × Reactor)
unfolding del_slot
epoll_del_event p r = if (r.ev p).ev_fd == r.nfile then none else some (del_slot p r)

abbrev pub is_ok : ℤ → Bool
is_ok (pos n) = true
is_ok (negsuc n) = false

-- The value -1, in the state that clearing EV_ACTIVE leaves.
abbrev fail_unactive : ℕ → Reactor → Option (ℤ × Reactor)
fail_unactive p r = elim (set_io_event_unactive p r) [
  | none ↦ none
  | some (was, r') ↦ some (failure, r')
]

module _ (ctl : Call → Bool) where
  -- The label `done` of `add_event`. The `&` of its test does not short-circuit.
  unfoldable add_failed : ℕ → Reactor → Option (ℤ × Reactor)
  unfolding set_io_event_unactive
  add_failed p r = fail_unactive p r

  -- The end of `add_event` after the epoll calls. `&` again: the flag is cleared in every mode.
  unfoldable add_ends : ℕ → ℤ × Reactor → Option (ℤ × Reactor)
  unfolding add_failed
  add_ends p b =
      if is_ok b.0 then some (success, (set_event_unactive p b.1).1) else add_failed p b.1

  unfoldable add_activated : ℕ → Bool → ℤ × Reactor → Option (ℤ × Reactor)
  unfolding add_ends epoll_active_event
  add_activated p actived a =
      if not (is_ok a.0)
      then add_failed p a.1
      else if not actived
      then add_ends p a
      else elim (epoll_active_event ctl p a.1) [ none ↦ none | some b ↦ add_ends p b ]

  -- From the insertion on.
  pub add_inserted : ℕ → Bool → Reactor → Option (ℤ × Reactor)
  unfolding add_activated epoll_add_event
  add_inserted p actived r = elim (epoll_add_event p (event_queue_insert p r)) [
    | none ↦ none
    | some a ↦ add_activated p actived a
  ]

  -- `timed` says whether `tv` is given.
  pub add_claimed : ℕ → Bool → Bool → Reactor → Option (ℤ × Reactor)
  unfolding add_inserted add_failed
  add_claimed p timed actived r =
      if not (r.ev p).inited
      then none
      else if timed && not (r.ev p).timeout
      then none
      else if ((r.ev p).reads || (r.ev p).writes) && not (r.ev p).inserted
      then add_inserted p actived r
      else add_failed p r

  -- What follows the claim with worker threads.
  abbrev pub add_after : ℕ → Bool → Bool → Option (Bool × Reactor) → Option (ℤ × Reactor)
  add_after p timed actived none = none
  add_after p timed actived (some c) =
      if c.0 then add_claimed p timed actived c.1 else some (failure, c.1)

  pub add_event : ℕ → Bool → Bool → Reactor → Option (ℤ × Reactor)
  unfolding add_claimed set_io_event_active
  add_event p timed actived r =
      if p == null
      then some (success, r)
      else if not r.threaded
      then add_claimed p timed actived r
      else add_after p timed actived (set_io_event_active p r)

  -- The label `done` of `del_event`.
  unfoldable del_failed : ℕ → Reactor → Option (ℤ × Reactor)
  unfolding set_io_event_unactive
  del_failed p r = if r.threaded then fail_unactive p r else some (failure, r)

  -- The end of `del_event` after the epoll call, and after `epoll_del_event`.
  unfoldable del_ends : ℕ → ℤ × Reactor → Option (ℤ × Reactor)
  unfolding del_failed
  del_ends p b = if is_ok b.0 then some (success, b.1) else del_failed p b.1

  unfoldable del_unwatched : ℕ → ℤ × Reactor → Option (ℤ × Reactor)
  unfolding del_ends epoll_del_event
  del_unwatched p a =
      if not (is_ok a.0)
      then del_failed p a.1
      else elim (epoll_del_event p a.1) [ none ↦ none | some b ↦ del_ends p b ]

  pub del_inserted : ℕ → Reactor → Option (ℤ × Reactor)
  unfolding del_unwatched epoll_unactive_event
  del_inserted p r = elim (epoll_unactive_event ctl p (event_queue_remove p r)) [
    | none ↦ none
    | some a ↦ del_unwatched p a
  ]

  pub del_claimed : ℕ → Reactor → Option (ℤ × Reactor)
  unfolding del_inserted del_failed
  del_claimed p r =
      if not (r.ev p).owned
      then none
      else if (r.ev p).inserted
      then del_inserted p r
      else del_failed p r

  -- What follows the claim with worker threads.
  abbrev pub del_after : ℕ → Option (Bool × Reactor) → Option (ℤ × Reactor)
  del_after p none = none
  del_after p (some c) = if c.0 then del_claimed p c.1 else some (failure, c.1)

  pub del_event : ℕ → Reactor → Option (ℤ × Reactor)
  unfolding del_claimed set_io_event_active
  del_event p r =
      if p == null
      then some (success, r)
      else if not r.threaded
      then del_claimed p r
      else del_after p (set_io_event_active p r)
