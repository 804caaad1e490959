-- ===== src/Reactor/Dispatch/Hangup.antt =====
-- A hang-up on a file descriptor that has an event in both slots, with worker threads.
use nf_server.Prelude.{
  ℕ, ◌≡◌, ◌≢◌, ◌<◌, sym, ap, ◌∙◌, Bool, true, false, Option, none, some, arith, beq_ne, inr, subst,
}
use nf_server.Prelude.Int.{success, failure}
use nf_server.Reactor.{Event, Reactor, Call, null}
use nf_server.Reactor.Slots.{
  claim_io, slots-claim_io, ev_fd-claim_io, reads-claim_io, live-claim_io, threaded-claim_io,
  nfile-claim_io, IsSlotted,
}
use nf_server.Reactor.Registry.{del_event}
use nf_server.Reactor.Registry.Delete.{
  IsKept, IsDeleted, claimed_state, del_event_lem, del_event-claimed,
}
use nf_server.Reactor.Dispatch.{on_broken, drop_event}

-- A reactor with worker threads holds, for a file descriptor, one event for reading and one for
-- writing, and no one works on either.
pub record IsIdlePair (fd : ℕ) (r : Reactor) : Type 0 where
  pub threads : r.threaded ≡ true
  pub reader : IsKept (r.evread fd) r
  pub writer : IsKept (r.evwrite fd) r
  pub reader_fd : (r.ev (r.evread fd)).ev_fd ≡ fd
  pub writer_fd : (r.ev (r.evwrite fd)).ev_fd ≡ fd
  pub reads : (r.ev (r.evread fd)).reads ≡ true
  pub writes : (r.ev (r.evwrite fd)).reads ≡ false
  pub reader_idle : (r.ev (r.evread fd)).active ≡ false
  pub writer_idle : (r.ev (r.evwrite fd)).active ≡ false

module _ {fd : ℕ} {r : Reactor} (v : IsIdlePair fd r) where
  -- The claim on the reader is a claim on both.
  pair_claim :
      ((claim_io (r.evread fd) r).0 ≡ true)
      × (((claim_io (r.evread fd) r).1.ev (r.evwrite fd)).active ≡ true)
  unfolding claim_io
  pair_claim = (
    ground (arith, v.reader_fd, v.reader.not_null, v.writer.not_null, v.reader_idle, v.writer_idle),
    ground (arith, v.reader_fd, v.reader.not_null, v.writer.not_null, v.reader_idle, v.writer_idle),
  )

  pair_ne : r.evwrite fd ≢ r.evread fd
  pair_ne e = let same = ap (λ (p : ℕ). (r.ev p).reads) e ∙ v.reads in cc (sym same ∙ v.writes)

  module _ (ctl : Call → Bool) (accepts : (c : Call) → ctl c ≡ true) where
    abbrev claimed_pair : Reactor
    claimed_pair = (claim_io (r.evread fd) r).1

    claimed_state-pair : claimed_state (r.evread fd) r ≡ claimed_pair
    claimed_state-pair = simp (v.threads)

    reader-IsDeleted :
        (r' : Reactor) × (del_event ctl (r.evread fd) r ≡ some (success, r'))
        × IsDeleted (r.evread fd) claimed_pair r'
    reader-IsDeleted =
        let d = del_event_lem ctl (r.evread fd) r accepts v.reader (λ t. pair_claim.0) in
        (d.0, d.1, subst (λ s. IsDeleted (r.evread fd) s d.0) claimed_state-pair d.2)

    abbrev left : Reactor
    left = reader-IsDeleted.0

    left_slots : (left.evread fd ≡ null) × (left.evwrite ≡ r.evwrite)
    left_slots =
        let d = reader-IsDeleted.2 in
        let same = slots-claim_io (r.evread fd) r in
        let at_fd = ev_fd-claim_io (r.evread fd) r (r.evread fd) ∙ v.reader_fd in
        let on = reads-claim_io (r.evread fd) r (r.evread fd) ∙ v.reads in
        (
          ap (λ (n : ℕ). left.evread n) (sym at_fd) ∙ (rw on at d.slot),
          (rw on at d.others) ∙ same.1,
        )

    writer_left :
        (left.live (r.evwrite fd) ≡ r.live (r.evwrite fd))
        × ((left.ev (r.evwrite fd)).active ≡ true)
        × IsSlotted (r.evwrite fd) left
    writer_left =
        let d = reader-IsDeleted.2 in
        let other = d.spared (r.evwrite fd) pair_ne in
        let at_fd : (left.ev (r.evwrite fd)).ev_fd ≡ fd =
          ap (λ (e : Event). e.ev_fd) other.1
          ∙ ev_fd-claim_io (r.evread fd) r (r.evwrite fd)
          ∙ v.writer_fd in
        (
          other.0 ∙ ap (λ (m : ℕ → Bool). m (r.evwrite fd)) (live-claim_io (r.evread fd) r),
          ap (λ (e : Event). e.active) other.1 ∙ pair_claim.1,
          inr (ap (λ (n : ℕ). left.evwrite n) at_fd ∙ ap (λ (m : ℕ → ℕ). m fd) left_slots.1),
        )

    writer_refused : del_event ctl (r.evwrite fd) left ≡ some (failure, left)
    writer_refused =
        del_event-claimed ctl (r.evwrite fd) left v.writer.not_null inside_left threads_left
          writer_left.2 writer_left.1
      where
        same_event : left.ev (r.evwrite fd) ≡ claimed_pair.ev (r.evwrite fd)
        same_event = (reader-IsDeleted.2.spared (r.evwrite fd) pair_ne).1

        inside_left : (left.ev (r.evwrite fd)).ev_fd < left.nfile
        inside_left =
            rw
              (
                same_event,
                ev_fd-claim_io (r.evread fd) r (r.evwrite fd),
                reader-IsDeleted.2.files,
                nfile-claim_io (r.evread fd) r,
              )
              v.writer.in_range

        threads_left : left.threaded ≡ true
        threads_left = reader-IsDeleted.2.mode ∙ threaded-claim_io (r.evread fd) r ∙ v.threads

    both_dropped :
        (execute : ℕ → Reactor → Reactor)
        → elim (drop_event ctl execute (r.evread fd) r) as (λ o. Option Reactor) [
          | none ↦ none
          | some r' ↦ drop_event ctl execute (r.evwrite fd) r'
        ]
          ≡ some left
    unfolding drop_event
    both_dropped execute =
        ap
          (λ o.
            elim (elim o as (λ x. Option Reactor) [ none ↦ none | some x ↦ some x.1 ])
              as (λ x. Option Reactor) [
                | none ↦ none
                | some r' ↦ drop_event ctl execute (r.evwrite fd) r'
              ])
          reader-IsDeleted.1
        ∙ ap (λ o. elim o as (λ x. Option Reactor) [ none ↦ none | some x ↦ some x.1 ])
            writer_refused

    broken_pair : (execute : ℕ → Reactor → Reactor) → on_broken ctl execute fd r ≡ some left
    unfolding on_broken
    broken_pair execute =
        rw
          (
            beq_ne (r.evread fd) null v.reader.not_null,
            beq_ne (r.evwrite fd) null v.writer.not_null,
            v.reader_idle,
            v.writer_idle,
          )
          (both_dropped execute)

-- With worker threads and every call of `net_ep_add` accepted, a hang-up on a file descriptor that has an
-- idle event in both slots deletes the reading event and empties its slot. The claim for that deletion
-- leaves the writing event active, so that its own deletion fails: it stays as it was in memory and in
-- its slot, and every later `del_event` of it in that state fails too.
pub on_broken_lem :
    (ctl : Call → Bool) (execute : ℕ → Reactor → Reactor) (fd : ℕ) (r : Reactor)
    → ((c : Call) → ctl c ≡ true)
    → IsIdlePair fd r
    → (r' : Reactor) × (on_broken ctl execute fd r ≡ some r')
      × (r'.live (r.evread fd) ≡ false)
      × (r'.evread fd ≡ null)
      × (r'.live (r.evwrite fd) ≡ r.live (r.evwrite fd))
      × (r'.evwrite fd ≡ r.evwrite fd)
      × (del_event ctl (r.evwrite fd) r' ≡ some (failure, r'))
on_broken_lem ctl execute fd r accepts v = (
  left v ctl accepts,
  broken_pair v ctl accepts execute,
  (reader-IsDeleted v ctl accepts).2.freed,
  (left_slots v ctl accepts).0,
  (writer_left v ctl accepts).0,
  ap (λ (m : ℕ → ℕ). m fd) (left_slots v ctl accepts).1,
  writer_refused v ctl accepts,
)
