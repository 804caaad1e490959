-- ===== src/Reactor/Registry/Delete.antt =====
-- What `del_event` does to the slots, the list, the count and the other events.
use nf_server.Prelude.{
  ℕ, ◌≡◌, ◌≢◌, ◌≤◌, ◌<◌, ◌==◌, refl, sym, ap, subst, ◌∙◌, Bool, true, false, not, some, ◌∷◌, arith,
  le→ltb_false, if◌then◌else◌, update_self, update_ne, inl, inr, Bool-cases, beq_ne,
}
use nf_server.Prelude.Int.{ℤ, negsuc, success, failure, ◌+ℤ◌}
use nf_server.Reactor.{Event, Reactor, Call, null, modify}
use nf_server.Reactor.Epoll.{unactive_event, epoll_unactive_event, unactive_call, with_epoll}
use nf_server.Reactor.Slots.{
  claim_io, set_io_event_active, set_io_event_active-claim_io, IsSlotted, claimed,
}
use nf_server.Reactor.Registry.{
  event_queue_remove, erase, del_slot, epoll_del_event, del_ends, del_unwatched, del_inserted,
  del_claimed, del_after, del_event,
}

-- What a deletion of the event at `p` for one direction leaves.
pub record IsDeleted (p : ℕ) (r r' : Reactor) : Type 0 where
  pub freed : r'.live p ≡ false
  pub spared : (a : ℕ) → a ≢ p → (r'.live a ≡ r.live a) × (r'.ev a ≡ r.ev a)
  pub listed : r'.ev_list ≡ erase p r.ev_list
  pub counted : r'.event_count ≡ r.event_count +ℤ negsuc 0
  pub mode : r'.threaded ≡ r.threaded
  pub files : r'.nfile ≡ r.nfile
  pub slot : (if (r.ev p).reads then r'.evread (r.ev p).ev_fd else r'.evwrite (r.ev p).ev_fd) ≡ null
  pub others :
      (if (r.ev p).reads then r'.evwrite else r'.evread)
      ≡ (if (r.ev p).reads then r.evwrite else r.evread)

-- An event of one direction that the reactor has accepted and that is in its slot.
pub record IsKept (p : ℕ) (r : Reactor) : Type 0 where
  pub not_null : p ≢ null
  pub in_range : (r.ev p).ev_fd < r.nfile
  pub one_way : (r.ev p).writes ≡ not (r.ev p).reads
  pub inserted : (r.ev p).inserted ≡ true
  pub owned : (r.ev p).owned ≡ true
  pub slot : (if (r.ev p).reads then r.evread (r.ev p).ev_fd else r.evwrite (r.ev p).ev_fd) ≡ p

-- What `epoll_del_event` does to an event that is in its slot.
record IsEmptied (p : ℕ) (s s' : Reactor) : Type 0 where
  freed : s'.live p ≡ false
  spared : (a : ℕ) → a ≢ p → s'.live a ≡ s.live a
  events : s'.ev ≡ s.ev
  listed : s'.ev_list ≡ s.ev_list
  counted : s'.event_count ≡ s.event_count +ℤ negsuc 0
  mode : s'.threaded ≡ s.threaded
  files : s'.nfile ≡ s.nfile
  on_read : (s.ev p).reads ≡ true → (s'.evread (s.ev p).ev_fd ≡ null) × (s'.evwrite ≡ s.evwrite)
  on_write : (s.ev p).reads ≡ false → (s'.evwrite (s.ev p).ev_fd ≡ null) × (s'.evread ≡ s.evread)

del_slot-IsEmptied :
    (p : ℕ) (s : Reactor)
    → p ≢ null
    → (s.ev p).ev_fd ≤ s.nfile
    → (s.ev p).writes ≡ not (s.ev p).reads
    → (if (s.ev p).reads then s.evread (s.ev p).ev_fd else s.evwrite (s.ev p).ev_fd) ≡ p
    → IsEmptied p s (del_slot p s).1
unfolding del_slot
del_slot-IsEmptied p s ne fd_ok one slot = elim (Bool-cases (s.ev p).reads) [
  | inl on ↦
      let in_slot : s.evread (s.ev p).ev_fd ≡ p = ground arith in
      rw
        (
          le→ltb_false s.nfile (s.ev p).ev_fd fd_ok,
          on,
          beq_ne (s.evread (s.ev p).ev_fd) null (λ z. ne (sym in_slot ∙ z)),
        )
        (record {
          freed = update_self s.live p false;
          spared = λ a ne. update_ne s.live p false a ne;
          events = refl;
          listed = refl;
          counted = refl;
          mode = refl;
          files = refl;
          on_read = λ h. (update_self s.evread (s.ev p).ev_fd null, refl);
          on_write = λ h. cc;
        })
  | inr off ↦
      let in_slot : s.evwrite (s.ev p).ev_fd ≡ p = ground arith in
      let other : (s.ev p).writes ≡ true = ground arith in
      rw
        (
          le→ltb_false s.nfile (s.ev p).ev_fd fd_ok,
          off,
          other,
          beq_ne (s.evwrite (s.ev p).ev_fd) null (λ z. ne (sym in_slot ∙ z)),
        )
        (record {
          freed = update_self s.live p false;
          spared = λ a ne. update_ne s.live p false a ne;
          events = refl;
          listed = refl;
          counted = refl;
          mode = refl;
          files = refl;
          on_read = λ h. cc;
          on_write = λ h. (update_self s.evwrite (s.ev p).ev_fd null, refl);
        })
]

module _ (ctl : Call → Bool) (accepts : (c : Call) → ctl c ≡ true) where
  -- The event is taken out of epoll.
  abbrev unwatched : ℕ → Reactor → Reactor
  unwatched p r =
      if (r.ev p).epoll_active
      then modify p (with_epoll false) (record r { calls = unactive_call p r ∷ r.calls })
      else r

  unactive_event-unwatched :
      (p : ℕ) (r : Reactor)
      → (r.ev p).ev_fd ≤ r.nfile
      → unactive_event ctl p r ≡ (success, unwatched p r)
  unfolding unactive_event
  unactive_event-unwatched p r h = elim (Bool-cases (r.ev p).epoll_active) [
    | inl on ↦ rw (le→ltb_false r.nfile (r.ev p).ev_fd h, on, accepts (unactive_call p r)) refl
    | inr off ↦ rw (le→ltb_false r.nfile (r.ev p).ev_fd h, off) refl
  ]

  -- The state in which the slot is emptied.
  abbrev removed : ℕ → Reactor → Reactor
  removed p r = unwatched p (event_queue_remove p r)

  removed_fields :
      (p : ℕ) (r : Reactor)
      → (r.ev p).inserted ≡ true
      → ((removed p r).live ≡ r.live)
        × ((removed p r).ev_list ≡ erase p r.ev_list)
        × ((removed p r).event_count ≡ r.event_count)
        × ((removed p r).threaded ≡ r.threaded)
        × ((removed p r).evread ≡ r.evread)
        × ((removed p r).evwrite ≡ r.evwrite)
        × ((removed p r).nfile ≡ r.nfile)
        × (((removed p r).ev p).reads ≡ (r.ev p).reads)
        × (((removed p r).ev p).writes ≡ (r.ev p).writes)
        × (((removed p r).ev p).ev_fd ≡ (r.ev p).ev_fd)
  unfolding event_queue_remove
  removed_fields p r ins = rw ins (
    ground arith,
    ground arith,
    ground arith,
    ground arith,
    ground arith,
    ground arith,
    ground arith,
    ground arith,
    ground arith,
    ground arith,
  )

  removed_others :
      (p : ℕ) (r : Reactor) (a : ℕ) → (r.ev p).inserted ≡ true → a ≢ p → (removed p r).ev a ≡ r.ev a
  unfolding event_queue_remove
  removed_others p r a ins ne = ground arith

  fd_of_removed : (p : ℕ) (r : Reactor) → ((event_queue_remove p r).ev p).ev_fd ≡ (r.ev p).ev_fd
  unfolding event_queue_remove
  fd_of_removed p r = ground arith

  removed_inside :
      (p : ℕ) (r : Reactor)
      → (r.ev p).ev_fd < r.nfile
      → (r.ev p).inserted ≡ true
      → ((event_queue_remove p r).ev p).ev_fd < (event_queue_remove p r).nfile
  removed_inside p r h ins = rw (fd_of_removed p r) (unfold event_queue_remove in ground arith)

  unactive-removed :
      (p : ℕ) (r : Reactor)
      → (r.ev p).ev_fd < r.nfile
      → (r.ev p).inserted ≡ true
      → epoll_unactive_event ctl p (event_queue_remove p r) ≡ some (success, removed p r)
  unfolding epoll_unactive_event
  unactive-removed p r h ins =
      let inside = removed_inside p r h ins in
      let apart : ((event_queue_remove p r).ev p).ev_fd == (event_queue_remove p r).nfile ≡ false =
        ground arith in
      rw apart (
        ap (λ (a : ℤ × Reactor). some a)
          (unactive_event-unwatched p (event_queue_remove p r) (omega (arith, inside))))

  del-removed :
      (p : ℕ) (r : Reactor)
      → (r.ev p).ev_fd < r.nfile
      → (r.ev p).inserted ≡ true
      → epoll_del_event p (removed p r) ≡ some (success, (del_slot p (removed p r)).1)
  unfolding epoll_del_event
  del-removed p r h ins =
      let f = removed_fields p r ins in
      let apart : ((removed p r).ev p).ev_fd == (removed p r).nfile ≡ false =
        rw (f.9, f.6) (ground arith) in
      rw apart (ap (λ (z : ℤ). some (z, (del_slot p (removed p r)).1)) emptied)
    where
      emptied : (del_slot p (removed p r)).0 ≡ success
      emptied =
          unfold del_slot in ground (arith, (removed_fields p r ins).6, (removed_fields p r ins).9)

  -- With every call accepted the deletion comes to emptying the slot.
  del_inserted-emptied :
      (p : ℕ) (r : Reactor)
      → (r.ev p).ev_fd < r.nfile
      → (r.ev p).inserted ≡ true
      → del_inserted ctl p r ≡ some (success, (del_slot p (removed p r)).1)
  unfolding del_inserted del_unwatched del_ends
  del_inserted-emptied p r h ins =
      rw (del_inserted, unactive-removed p r h ins, del_unwatched, del-removed p r h ins, del_ends)
        refl

  removed-IsEmptied :
      (p : ℕ) (r : Reactor) → IsKept p r → IsEmptied p (removed p r) (del_slot p (removed p r)).1
  removed-IsEmptied p r k =
      let f = removed_fields p r k.inserted in
      del_slot-IsEmptied p (removed p r) k.not_null (rw (f.9, f.6) (omega (arith, k.in_range)))
        (rw (f.8, f.7) k.one_way) (rw (f.7, f.9, f.4, f.5) k.slot)

  emptied-IsDeleted :
      (p : ℕ) (r : Reactor) → IsKept p r → IsDeleted p r (del_slot p (removed p r)).1
  emptied-IsDeleted p r k = record {
    freed = e.freed;
    spared = λ a ne. (
      e.spared a ne ∙ ap (λ (m : ℕ → Bool). m a) (removed_fields p r k.inserted).0,
      ap (λ (m : ℕ → Event). m a) e.events ∙ removed_others p r a k.inserted ne,
    );
    listed = e.listed ∙ (removed_fields p r k.inserted).1;
    counted = e.counted ∙ ap (λ (c : ℤ). c +ℤ negsuc 0) (removed_fields p r k.inserted).2;
    mode = e.mode ∙ (removed_fields p r k.inserted).3;
    files = e.files ∙ (removed_fields p r k.inserted).6;
    slot = slots.0;
    others = slots.1;
  }
    where
      e : IsEmptied p (removed p r) (del_slot p (removed p r)).1
      e = removed-IsEmptied p r k

      s' : Reactor
      s' = (del_slot p (removed p r)).1

      slots_read :
          (s'.evread ((removed p r).ev p).ev_fd ≡ null) × (s'.evwrite ≡ (removed p r).evwrite)
          → (s'.evread (r.ev p).ev_fd ≡ null) × (s'.evwrite ≡ r.evwrite)
      slots_read (a, b) = (
        ap (λ (fd : ℕ). s'.evread fd) (sym (removed_fields p r k.inserted).9) ∙ a,
        b ∙ (removed_fields p r k.inserted).5,
      )

      slots_write :
          (s'.evwrite ((removed p r).ev p).ev_fd ≡ null) × (s'.evread ≡ (removed p r).evread)
          → (s'.evwrite (r.ev p).ev_fd ≡ null) × (s'.evread ≡ r.evread)
      slots_write (a, b) = (
        ap (λ (fd : ℕ). s'.evwrite fd) (sym (removed_fields p r k.inserted).9) ∙ a,
        b ∙ (removed_fields p r k.inserted).4,
      )

      slots :
          ((if (r.ev p).reads then s'.evread (r.ev p).ev_fd else s'.evwrite (r.ev p).ev_fd) ≡ null)
          × ((if (r.ev p).reads then s'.evwrite else s'.evread)
              ≡ (if (r.ev p).reads then r.evwrite else r.evread))
      slots = elim (Bool-cases (r.ev p).reads) [
        | inl h ↦
            let b = slots_read (e.on_read ((removed_fields p r k.inserted).7 ∙ h)) in
            (
              ap (λ t. if t then s'.evread (r.ev p).ev_fd else s'.evwrite (r.ev p).ev_fd) h ∙ b.0,
              rw h b.1,
            )
        | inr h ↦
            let b = slots_write (e.on_write ((removed_fields p r k.inserted).7 ∙ h)) in
            (
              ap (λ t. if t then s'.evread (r.ev p).ev_fd else s'.evwrite (r.ev p).ev_fd) h ∙ b.0,
              rw h b.1,
            )
      ]

-- A claim keeps an event kept.
IsKept-claim : (p : ℕ) (r : Reactor) → IsKept p r → IsKept p (claim_io p r).1
unfolding claim_io
IsKept-claim p r k = record {
  not_null = k.not_null;
  in_range = ground (arith, k.in_range);
  one_way = ground (arith, k.one_way);
  inserted = ground (arith, k.inserted);
  owned = ground (arith, k.owned);
  slot = ground (arith, k.slot);
}

-- The state in which `del_event` works: with worker threads the event has been claimed.
abbrev pub claimed_state : ℕ → Reactor → Reactor
claimed_state p r = if r.threaded then (claim_io p r).1 else r

-- `del_event` after the claim.
del_claimed-IsDeleted :
    (ctl : Call → Bool) (p : ℕ) (r : Reactor)
    → ((c : Call) → ctl c ≡ true)
    → IsKept p r
    → (r' : Reactor) × (del_claimed ctl p r ≡ some (success, r')) × IsDeleted p r r'
unfolding del_claimed
del_claimed-IsDeleted ctl p r accepts k = (
  (del_slot p (removed ctl accepts p r)).1,
  simp (k.owned, k.inserted) (del_inserted-emptied ctl accepts p r k.in_range k.inserted),
  emptied-IsDeleted ctl accepts p r k,
)

-- `del_event` in both modes.
del_event-on :
    (ctl : Call → Bool) (p : ℕ) (r : Reactor)
    → p ≢ null
    → (r.ev p).ev_fd < r.nfile
    → r.threaded ≡ true
    → del_event ctl p r ≡ del_after ctl p (some (claim_io p r))
unfolding del_event
del_event-on ctl p r ne inside on =
    ap
      (λ t.
        if t
        then some (success, r)
        else if not r.threaded
        then del_claimed ctl p r
        else del_after ctl p (set_io_event_active p r))
      (beq_ne p null ne)
    ∙ ap (λ t. if not t then del_claimed ctl p r else del_after ctl p (set_io_event_active p r)) on
    ∙ ap (del_after ctl p) (set_io_event_active-claim_io p r ne inside)

del_event-off :
    (ctl : Call → Bool) (p : ℕ) (r : Reactor)
    → p ≢ null
    → r.threaded ≡ false
    → del_event ctl p r ≡ del_claimed ctl p r
unfolding del_event
del_event-off ctl p r ne off =
    ap
      (λ t.
        if t
        then some (success, r)
        else if not r.threaded
        then del_claimed ctl p r
        else del_after ctl p (set_io_event_active p r))
      (beq_ne p null ne)
    ∙ ap (λ t. if not t then del_claimed ctl p r else del_after ctl p (set_io_event_active p r)) off

pub del_event_lem :
    (ctl : Call → Bool) (p : ℕ) (r : Reactor)
    → ((c : Call) → ctl c ≡ true)
    → IsKept p r
    → (r.threaded ≡ true → (claim_io p r).0 ≡ true)
    → (r' : Reactor) × (del_event ctl p r ≡ some (success, r')) × IsDeleted p (claimed_state p r) r'
del_event_lem ctl p r accepts k won = elim (Bool-cases r.threaded) [
  | inl on ↦
      let c = claim_io p r in
      let done = del_claimed-IsDeleted ctl p c.1 accepts (IsKept-claim p r k) in
      let state : c.1 ≡ claimed_state p r = sym (ap (λ t. if t then c.1 else r) on) in
      (
        done.0,
        del_event-on ctl p r k.not_null k.in_range on
            ∙ ap (λ t. if t then del_claimed ctl p c.1 else some (failure, c.1)) (won on)
            ∙ done.1,
        subst (λ s. IsDeleted p s done.0) state done.2,
      )
  | inr off ↦
      let done = del_claimed-IsDeleted ctl p r accepts k in
      let state : r ≡ claimed_state p r = sym (ap (λ t. if t then (claim_io p r).1 else r) off) in
      (
        done.0,
        del_event-off ctl p r k.not_null off ∙ done.1,
        subst (λ s. IsDeleted p s done.0) state done.2,
      )
]

-- With worker threads an event that is active in its slot cannot be deleted.
pub del_event-claimed :
    (ctl : Call → Bool) (p : ℕ) (r : Reactor)
    → p ≢ null
    → (r.ev p).ev_fd < r.nfile
    → r.threaded ≡ true
    → IsSlotted p r
    → (r.ev p).active ≡ true
    → del_event ctl p r ≡ some (failure, r)
del_event-claimed ctl p r ne inside on s act =
    del_event-on ctl p r ne inside on
    ∙ ap (λ (c : Bool × Reactor). del_after ctl p (some c)) (claimed p r s act).0
