-- ===== src/Reactor/Slots.antt =====
-- The EV_ACTIVE flag as a claim on the events of a file descriptor: `set_event_active`,
-- `set_event_unactive`, `set_io_event_active` and `set_io_event_unactive`. The last two index `fds`
-- with no test; `none` is an index outside its `nfile` entries.
use nf_server.Prelude.{
  ℕ, ◌≡◌, refl, Bool, true, false, not, ◌||◌, ◌⊎◌, arith, ◌==◌, if◌then◌else◌, update, inl, inr,
  Bool-cases, Option, none, some, ltb, ◌<◌, ◌≢◌, beq_ne,
}
use nf_server.Reactor.{Event, Reactor, null, modify, activate, deactivate}

unfoldable pub set_event_active : ℕ → Reactor → Bool × Reactor
set_event_active p r =
    if p == null
    then (false, r)
    else if (r.ev p).active
    then (false, r)
    else (true, modify p activate r)

unfoldable pub set_event_unactive : ℕ → Reactor → Bool × Reactor
set_event_unactive p r =
    if p == null
    then (false, r)
    else if not (r.ev p).active
    then (false, r)
    else (true, modify p deactivate r)

-- `set_io_event_active` with an index inside `fds`.
unfoldable pub claim_io : ℕ → Reactor → Bool × Reactor
claim_io p r =
    let fd = (r.ev p).ev_fd in
    let evread = r.evread fd in
    let evwrite = r.evwrite fd in
    if p == null
    then (false, r)
    else if (evread == null) || (evwrite == null)
    then (if (r.ev p).active then (false, r) else (true, modify p activate r))
    else if (r.ev evread).active || (r.ev evwrite).active
    then (false, r)
    else (true, modify evwrite activate (modify evread activate r))

-- `set_io_event_unactive` with an index inside `fds`.
unfoldable pub unclaim_io : ℕ → Reactor → Bool × Reactor
unclaim_io p r =
    let fd = (r.ev p).ev_fd in
    let evread = r.evread fd in
    let evwrite = r.evwrite fd in
    if p == null
    then (false, r)
    else if (evread == null) || (evwrite == null)
    then (if not (r.ev p).active then (false, r) else (true, modify p deactivate r))
    else (true, modify evwrite deactivate (modify evread deactivate r))

abbrev pub in_fds : ℕ → Reactor → Bool
in_fds p r = ltb (r.ev p).ev_fd r.nfile

unfoldable pub set_io_event_active : ℕ → Reactor → Option (Bool × Reactor)
unfolding claim_io
set_io_event_active p r =
    if p == null then some (false, r) else if in_fds p r then some (claim_io p r) else none

unfoldable pub set_io_event_unactive : ℕ → Reactor → Option (Bool × Reactor)
unfolding unclaim_io
set_io_event_unactive p r =
    if p == null then some (false, r) else if in_fds p r then some (unclaim_io p r) else none

pub set_io_event_active-claim_io :
    (p : ℕ) (r : Reactor)
    → p ≢ null
    → (r.ev p).ev_fd < r.nfile
    → set_io_event_active p r ≡ some (claim_io p r)
unfolding set_io_event_active
set_io_event_active-claim_io p r ne inside =
    let here : in_fds p r ≡ true = ground arith in rw (beq_ne p null ne, here) refl

-- The event at `p` is in the slot of its file descriptor that fits one of its directions.
abbrev pub IsSlotted : ℕ → Reactor → Type 0
IsSlotted p r = (r.evread (r.ev p).ev_fd ≡ p) ⊎ (r.evwrite (r.ev p).ev_fd ≡ p)

-- What a claim leaves alone: the slots, and the file descriptor of every event.
pub slots-claim_io :
    (p : ℕ) (r : Reactor)
    → let r' = (claim_io p r).1 in (r'.evread ≡ r.evread) × (r'.evwrite ≡ r.evwrite)
unfolding claim_io
slots-claim_io p r = (ground arith, ground arith)

ev_fd-update :
    (ev : ℕ → Event) (k : ℕ) (f : Event → Event) (a : ℕ)
    → ((e : Event) → (f e).ev_fd ≡ e.ev_fd)
    → (update ev k (f (ev k)) a).ev_fd ≡ (ev a).ev_fd
ev_fd-update ev k f a same = elim (Bool-cases (a == k)) [
  | inl e ↦ let e' : a ≡ k = ground arith in rw (e, e') (same (ev k))
  | inr ne ↦ rw ne refl
]

pub ev_fd-claim_io : (p : ℕ) (r : Reactor) (a : ℕ) → ((claim_io p r).1.ev a).ev_fd ≡ (r.ev a).ev_fd
unfolding claim_io
ev_fd-claim_io p r a =
    ground (arith, one, ev_fd-update r.ev p activate a (λ e. refl), first, second)
  where
    fd : ℕ
    fd = (r.ev p).ev_fd

    ev' : ℕ → Event
    ev' = update r.ev (r.evread fd) (activate (r.ev (r.evread fd)))

    one : (update r.ev p (activate (r.ev p)) a).ev_fd ≡ (r.ev a).ev_fd
    one = ev_fd-update r.ev p activate a (λ e. refl)

    first : (ev' a).ev_fd ≡ (r.ev a).ev_fd
    first = ev_fd-update r.ev (r.evread fd) activate a (λ e. refl)

    second : (update ev' (r.evwrite fd) (activate (ev' (r.evwrite fd))) a).ev_fd ≡ (ev' a).ev_fd
    second = ev_fd-update ev' (r.evwrite fd) activate a (λ e. refl)

reads-update :
    (ev : ℕ → Event) (k : ℕ) (a : ℕ) → (update ev k (activate (ev k)) a).reads ≡ (ev a).reads
reads-update ev k a = elim (Bool-cases (a == k)) [
  | inl e ↦ let e' : a ≡ k = ground arith in rw (e, e') refl
  | inr ne ↦ rw ne refl
]

pub reads-claim_io : (p : ℕ) (r : Reactor) (a : ℕ) → ((claim_io p r).1.ev a).reads ≡ (r.ev a).reads
unfolding claim_io
reads-claim_io p r a = ground (
  arith,
  reads-update r.ev p a,
  reads-update r.ev (r.evread fd) a,
  reads-update (update r.ev (r.evread fd) (activate (r.ev (r.evread fd)))) (r.evwrite fd) a,
)
  where
    fd : ℕ
    fd = (r.ev p).ev_fd

pub live-claim_io : (p : ℕ) (r : Reactor) → (claim_io p r).1.live ≡ r.live
unfolding claim_io
live-claim_io p r = ground arith

pub threaded-claim_io : (p : ℕ) (r : Reactor) → (claim_io p r).1.threaded ≡ r.threaded
unfolding claim_io
threaded-claim_io p r = ground arith

pub nfile-claim_io : (p : ℕ) (r : Reactor) → (claim_io p r).1.nfile ≡ r.nfile
unfolding claim_io
nfile-claim_io p r = ground arith

-- An event that is active in its slot cannot be claimed.
pub claimed :
    (p : ℕ) (r : Reactor)
    → IsSlotted p r
    → (r.ev p).active ≡ true
    → (claim_io p r ≡ (false, r)) × (set_event_active p r ≡ (false, r))
unfolding claim_io set_event_active
claimed p r s on = (ground arith, ground arith)

-- A claim that succeeds makes the event active.
claim-active :
    (p : ℕ) (r : Reactor)
    → IsSlotted p r
    → (claim_io p r).0 ≡ true
    → ((claim_io p r).1.ev p).active ≡ true
unfolding claim_io
claim-active p r s h = ground arith

-- A claim by `claim_io` on an event in its slot excludes any other: once it has succeeded a
-- second one fails and changes nothing, and so does `set_event_active`.
claim_excludes :
    (p : ℕ) (r : Reactor)
    → IsSlotted p r
    → (claim_io p r).0 ≡ true
    → let r' = (claim_io p r).1 in
      (claim_io p r' ≡ (false, r')) × (set_event_active p r' ≡ (false, r'))
claim_excludes p r s h = claimed p (claim_io p r).1 (slotted s) (claim-active p r s h)
  where
    slotted : IsSlotted p r → IsSlotted p (claim_io p r).1
    slotted (inl e) = inl (rw ((slots-claim_io p r).0, ev_fd-claim_io p r p) e)
    slotted (inr e) = inr (rw ((slots-claim_io p r).1, ev_fd-claim_io p r p) e)
