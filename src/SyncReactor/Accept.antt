-- ===== src/SyncReactor/Accept.antt =====
-- What `epollDispatch` does with the event that accepts connections.
use nf_server.Prelude.{
  ℕ, suc, ◌≡◌, ◌≢◌, refl, ap, ◌∙◌, Bool, true, false, Option, none, some, List, [], ◌∷◌, arith,
  if◌then◌else◌, beq_ne,
}
use nf_server.SyncReactor.{
  World, Call, Ready, running, set_event, dispatch_one, epoll_dispatch, ext_event, settle, call,
  ctl_del, discard, ext_post,
}

-- The event with the bits that its result sets, and as its callback finds it.
abbrev pub with_bits : Ready → World → World
with_bits r w =
    let accept = (w.ev r.event).result.accept in
    set_event r.event
      (λ e. record e {
        result = record {
          readable = r.epoll_in;
          writeable = r.epoll_out;
          closesock = r.broken;
          accept = accept;
          error = false;
        };
      })
      w

abbrev pub accepting : Ready → World → World
accepting r w = set_event r.event (λ e. record e { status = running }) (with_bits r w)

-- The callbacks of a round, one after the other.
abbrev pub served : (ℕ → World → World) → List Ready → World → World
served callback [] w = w
served callback (r ∷ rs) w = served callback rs (callback r.event (accepting r w))

-- A callback, such as LineEvent's `accept_callback`, that leaves its event running, and every event
-- accepting or not as it was.
pub record IsAccepting (callback : ℕ → World → World) : Type 0 where
  pub runs : (p : ℕ) (w : World) → ((callback p w).ev p).status ≡ (w.ev p).status
  pub accepts : (p q : ℕ) (w : World) → ((callback p w).ev q).result.accept ≡ (w.ev q).result.accept

-- Results without EPOLLHUP and EPOLLERR for events that accept connections.
pub data AreAccepting (w : World) : List Ready → Type 0 where
  no_results : AreAccepting w []
  one_result :
      {rs : List Ready} (r : Ready)
      → r.event ≢ 0
      → r.broken ≡ false
      → (w.ev r.event).result.accept ≡ true
      → AreAccepting w rs
      → AreAccepting w (r ∷ rs)

settle-running :
    (ctl : Call → Bool) (callback : ℕ → World → World) (extern : ℕ → World → Option World) (p : ℕ)
    (w : World)
    → (w.ev p).status ≡ running
    → (w.ev p).result.accept ≡ true
    → settle ctl callback extern p w ≡ some w
unfolding settle
settle-running ctl callback extern p w runs accepts = ground arith

pick :
    (b c : Bool) (x y z : Option World)
    → b ≡ false
    → c ≡ true
    → (if b then x else if c then y else z) ≡ y
pick true c x y z e f = absurd cc
pick false true x y z e f = refl
pick false false x y z e f = absurd cc

accepting-accept :
    (r : Ready) (q : ℕ) (w : World) → ((accepting r w).ev q).result.accept ≡ (w.ev q).result.accept
accepting-accept r q w = ground arith

accepting-status : (r : Ready) (w : World) → ((accepting r w).ev r.event).status ≡ running
accepting-status r w = ground arith

module _ (ctl : Call → Bool) {callback : ℕ → World → World} (v : IsAccepting callback)
    (fuel : ℕ) where
  ext_event-accepting :
      (r : Ready) (w : World)
      → r.event ≢ 0
      → (w.ev r.event).result.accept ≡ true
      → ext_event ctl callback (suc fuel) r.event (with_bits r w)
        ≡ some (callback r.event (accepting r w))
  unfolding ext_event
  ext_event-accepting r w ne accept =
      let p = r.event in
      ap
        (λ t.
          if t
          then none
          else settle ctl callback (ext_event ctl callback fuel) p (callback p (accepting r w)))
        (beq_ne p 0 ne)
      ∙ settle-running ctl callback (ext_event ctl callback fuel) p (callback p (accepting r w))
          (v.runs p (accepting r w) ∙ accepting-status r w)
          (v.accepts p p (accepting r w) ∙ accepting-accept r p w ∙ accept)

  dispatch_one-accepting :
      (r : Ready) (w : World)
      → r.event ≢ 0
      → r.broken ≡ false
      → (w.ev r.event).result.accept ≡ true
      → dispatch_one ctl callback (suc fuel) r.event r.broken r.epoll_in r.epoll_out w
        ≡ some (callback r.event (accepting r w))
  unfolding dispatch_one
  dispatch_one-accepting r w ne whole accept =
      let out = call (ctl_del (w.ev r.event).handle) (with_bits r w) in
      pick r.broken (w.ev r.event).result.accept (some (discard r.event (with_bits r w)))
        (ext_event ctl callback (suc fuel) r.event (with_bits r w))
        (if w.has_ext
          then some (ext_post r.event out).1
          else ext_event ctl callback (suc fuel) r.event out)
        whole accept
      ∙ ext_event-accepting r w ne accept

  AreAccepting-served :
      (r : Ready) (w : World) {rs : List Ready}
      → AreAccepting w rs
      → AreAccepting (callback r.event (accepting r w)) rs
  AreAccepting-served r w no_results = no_results
  AreAccepting-served r w (one_result q ne whole accept more) =
      one_result q ne whole
        (v.accepts r.event q.event (accepting r w) ∙ accepting-accept r q.event w ∙ accept)
        (AreAccepting-served r w more)

-- A round of `epollDispatch` over results without EPOLLHUP and EPOLLERR for events that accept connections,
-- with a callback that leaves its event running and accepting: it ends, and has called their callbacks,
-- in the order of the results, in the reactor's own thread also where there is an EXTReactor. Beyond
-- what the callbacks do it has set the bits and the status of these events only: none of them is
-- deleted, passed on or taken out of epoll.
pub epoll_dispatch-accepting :
    (ctl : Call → Bool) {callback : ℕ → World → World} (fuel : ℕ) (rs : List Ready) (w : World)
    → IsAccepting callback
    → AreAccepting w rs
    → epoll_dispatch ctl callback (suc fuel) rs w ≡ some (served callback rs w)
unfolding epoll_dispatch
epoll_dispatch-accepting ctl fuel [] w v no_results = refl
epoll_dispatch-accepting ctl {callback} fuel (r ∷ rs) w v (one_result _ ne whole accept more) =
    let w' = callback r.event (accepting r w) in
    ap
      (λ o. elim o as (λ x. Option World) [
        | none ↦ none
        | some u ↦ epoll_dispatch ctl callback (suc fuel) rs u
      ])
      (dispatch_one-accepting ctl v fuel r w ne whole accept)
    ∙ epoll_dispatch-accepting ctl fuel rs w' v (AreAccepting-served ctl v fuel r w more)
