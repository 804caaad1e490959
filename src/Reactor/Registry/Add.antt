-- ===== src/Reactor/Registry/Add.antt =====
-- What `add_event` does with an event for reading, in the mode without worker threads.
use nf_server.Prelude.{
  ℕ, refl, ◌≡◌, ◌≢◌, ◌==◌, if◌then◌else◌, ◌<◌, Bool, true, false, some, [], ◌∷◌, ◌++◌, arith,
  beq_ne,
}
use nf_server.Prelude.Int.{ℤ, pos, success, ◌+ℤ◌}
use nf_server.Reactor.{Reactor, Call, null}
use nf_server.Reactor.Slots.{set_event_unactive}
use nf_server.Reactor.Registry.{
  event_queue_insert, add_slot, epoll_add_event, add_inserted, add_activated, add_ends, add_claimed,
  add_event,
}

-- An event for reading that is ready to be added.
pub record IsNewReader (p : ℕ) (r : Reactor) : Type 0 where
  pub not_null : p ≢ null
  pub in_range : (r.ev p).ev_fd < r.nfile
  pub elsewhere : r.evread (r.ev p).ev_fd ≢ p
  pub inited : (r.ev p).inited ≡ true
  pub inserted : (r.ev p).inserted ≡ false
  pub reads : (r.ev p).reads ≡ true
  pub writes : (r.ev p).writes ≡ false

-- What an addition of the event at `p` leaves.
pub record IsAdded (p : ℕ) (r r' : Reactor) : Type 0 where
  pub inserted : (r'.ev p).inserted ≡ true
  pub owned : (r'.ev p).owned ≡ true
  pub idle : (r'.ev p).active ≡ false
  pub slot : r'.evread (r.ev p).ev_fd ≡ p
  pub writers : r'.evwrite ≡ r.evwrite
  pub kept : r'.live p ≡ r.live p
  pub replaced :
      r'.live (r.evread (r.ev p).ev_fd)
      ≡ (if r.evread (r.ev p).ev_fd == null then r.live null else false)
  pub listed : r'.ev_list ≡ r.ev_list ++ (p ∷ [])
  pub counted : r'.event_count ≡ r.event_count +ℤ pos 1

-- The state after the insertion and the slot, and at the end.
abbrev slotted : ℕ → Reactor → ℤ × Reactor
slotted p r = add_slot p (event_queue_insert p r)

abbrev finished : ℕ → Reactor → Reactor
finished p r = (set_event_unactive p (slotted p r).1).1

slotted-success : (p : ℕ) (r : Reactor) → IsNewReader p r → (slotted p r).0 ≡ success
unfolding add_slot event_queue_insert
slotted-success p r n = ground (arith, n.in_range)

finished-IsAdded : (p : ℕ) (r : Reactor) → IsNewReader p r → IsAdded p r (finished p r)
unfolding add_slot event_queue_insert set_event_unactive
finished-IsAdded p r n = record {
  inserted = ground (arith, n.in_range, n.not_null);
  owned = ground (arith, n.in_range, n.not_null);
  idle = ground (arith, n.in_range, n.not_null);
  slot = ground (arith, n.in_range, n.reads, n.writes);
  writers = ground (arith, n.in_range, n.writes);
  kept = ground (arith, n.in_range, n.reads, n.writes, n.elsewhere);
  replaced = ground (arith, n.in_range, n.reads, n.writes);
  listed = ground (arith, n.in_range, n.reads, n.writes);
  counted = ground (arith, n.in_range, n.reads, n.writes);
}

-- The file descriptor is inside `fds`.
add-slotted :
    (p : ℕ) (r : Reactor)
    → IsNewReader p r
    → epoll_add_event p (event_queue_insert p r) ≡ some (slotted p r)
unfolding epoll_add_event
add-slotted p r n =
    let inside : ((event_queue_insert p r).ev p).ev_fd == (event_queue_insert p r).nfile ≡ false =
      unfold event_queue_insert in ground (arith, n.in_range) in
    rw inside refl

inserted_reader :
    (ctl : Call → Bool) (p : ℕ) (r : Reactor)
    → IsNewReader p r
    → add_inserted ctl p false r ≡ some (success, finished p r)
unfolding add_inserted add_activated add_ends
inserted_reader ctl p r n =
    rw (add_inserted, add-slotted p r n, add_activated, slotted-success p r n, add_ends) refl

-- In the mode without worker threads, `add_event` without a timeout and with `actived` false takes a
-- new event for reading whose file descriptor is below `nfile` and that is not in its slot yet: it
-- succeeds, the event is inserted, idle, not deleted, last in the list and in its slot, the count is one
-- more, the slots for writing are as before, and an event that was in the slot has been deleted.
pub add_event_lem :
    (ctl : Call → Bool) (p : ℕ) (r : Reactor)
    → IsNewReader p r
    → r.threaded ≡ false
    → (r' : Reactor) × (add_event ctl p false false r ≡ some (success, r')) × IsAdded p r r'
unfolding add_event add_claimed
add_event_lem ctl p r n off = (
  finished p r,
  simp (beq_ne p null n.not_null, off, n.inited, n.inserted, n.reads) (inserted_reader ctl p r n),
  finished-IsAdded p r n,
)
