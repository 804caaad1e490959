-- ===== src/SyncReactor/Dispatch.antt =====
-- What `extEvent` and `epollDispatch` do with an event.
use nf_server.Prelude.{
  ℕ, suc, ◌≡◌, ◌≢◌, refl, sym, ap, ap₂, ◌∙◌, Bool, true, false, not, Option, none, some, List, [],
  ◌∷◌, ◌++◌, append_assoc, append-nil, arith, if◌then◌else◌, update, beq_ne, inl, inr,
}
use nf_server.SyncReactor.{
  Event, Bits, Owner, nobody, sync, ext, init, ready, running, done, canceled, World, Call, ctl_del,
  Ready, or_ext, set_event, has_flag, ext_post, epoll_add, post, repost, settle, ext_event,
  dispatch_one, epoll_dispatch,
}
use nf_server.SyncReactor.Post.{Kind-cases}

-- Whether an event that has run is finished: cancelled, or done and not reused. One that is neither
-- running nor done counts as finished.
abbrev pub is_finished : Event → Bool
is_finished e = elim e.status [
  | init ↦ true
  | ready ↦ true
  | running ↦ false
  | done ↦ not e.reused
  | canceled ↦ true
]

-- The state after the callback.
abbrev pub called : (ℕ → World → World) → ℕ → World → World
called callback p w = callback p (set_event p (λ e. record e { status = running }) w)

-- The events in memory after a step that may crash.
abbrev pub lives : Option World → Option (ℕ → Bool)
lives none = none
lives (some w) = some w.live

lives-post :
    (ctl : Call → Bool) (extern : ℕ → World → Option World) (p : ℕ) (w : World)
    → p ≢ 0
    → lives (post ctl extern p w) ≡ some w.live
unfolding post ext_post epoll_add has_flag
lives-post ctl extern p w ne = elim (Kind-cases (w.ev p).kind) [
  | inl e ↦ ground arith
  | inr e ↦ ground arith
]

lives-repost :
    (ctl : Call → Bool) (callback : ℕ → World → World) (extern : ℕ → World → Option World) (p : ℕ)
    (w : World)
    → p ≢ 0
    → (w.ev p).owner ≢ nobody
    → lives (repost ctl callback extern p w) ≡ some w.live
unfolding repost
lives-repost ctl callback extern p w ne owned = go (w.ev p).owner refl
  where
    go : (o : Owner) → (w.ev p).owner ≡ o → lives (repost ctl callback extern p w) ≡ some w.live
    go nobody e = absurd (owned e)
    go sync e = ground (arith, lives-post ctl extern p w ne)
    go ext e = unfold ext_post in ground arith

lives-settle :
    (ctl : Call → Bool) (callback : ℕ → World → World) (extern : ℕ → World → Option World) (p : ℕ)
    (w : World)
    → p ≢ 0
    → (w.ev p).owner ≢ nobody
    → lives (settle ctl callback extern p w)
      ≡ some (if is_finished (w.ev p) then update w.live p false else w.live)
unfolding settle
lives-settle ctl callback extern p w ne owned =
    ground (arith, lives-repost ctl callback extern p w ne owned)

-- `extEvent` returns, with one call and no other within it, for an event that has a reactor after its
-- callback: it deletes the event if it is finished, and otherwise leaves it, and every other, in memory.
pub ext_event_lem :
    (ctl : Call → Bool) (callback : ℕ → World → World) (fuel p : ℕ) (w : World)
    → p ≢ 0
    → ((called callback p w).ev p).owner ≢ nobody
    → let w₁ = called callback p w in
      lives (ext_event ctl callback (suc fuel) p w)
      ≡ some (if is_finished (w₁.ev p) then update w₁.live p false else w₁.live)
unfolding ext_event
ext_event_lem ctl callback fuel p w ne owned =
    ap
      (λ t. lives (
        if t
        then none
        else settle ctl callback (ext_event ctl callback fuel) p (called callback p w)))
      (beq_ne p 0 ne)
    ∙ lives-settle ctl callback (ext_event ctl callback fuel) p (called callback p w) ne owned

-- A result of `epoll_wait` that neither closes the socket nor is for an accepting event goes on.
abbrev handed_over : List Ready → List ℕ
handed_over [] = []
handed_over (r ∷ rs) = if r.broken then handed_over rs else r.event ∷ handed_over rs

-- The calls of `epoll_ctl` that take the events out.
abbrev deletions : (ℕ → Event) → List Ready → List Call
deletions ev [] = []
deletions ev (r ∷ rs) =
    if r.broken then deletions ev rs else ctl_del (ev r.event).handle ∷ deletions ev rs

abbrev pub freed : List Ready → (ℕ → Bool) → ℕ → Bool
freed [] live = live
freed (r ∷ rs) live = if r.broken then freed rs (update live r.event false) else freed rs live

-- Results for events that do not accept connections.
pub data ArePlain (ev : ℕ → Event) : List Ready → Type 0 where
  no_results : ArePlain ev []
  one_result :
      {rs : List Ready} (r : Ready)
      → r.event ≢ 0
      → (ev r.event).result.accept ≡ false
      → ArePlain ev rs
      → ArePlain ev (r ∷ rs)

-- The state after one plain result, with an EXTReactor.
abbrev passed : Ready → World → World
passed r w =
    let e = w.ev r.event in
    let bits : Bits = record {
      readable = r.epoll_in;
      writeable = r.epoll_out;
      closesock = r.broken;
      accept = false;
      error = false;
    } in
    if r.broken
    then record w {
      ev = update w.ev r.event (record e { result = bits });
      live = update w.live r.event false;
    }
    else record w {
      ev = update w.ev r.event (record e { result = bits; status = ready; owner = or_ext e.owner });
      ext_queue = w.ext_queue ++ (r.event ∷ []);
      calls = w.calls ++ (ctl_del e.handle ∷ []);
    }

dispatch_one-passed :
    (ctl : Call → Bool) (callback : ℕ → World → World) (fuel : ℕ) (r : Ready) (w : World)
    → w.has_ext ≡ true
    → r.event ≢ 0
    → (w.ev r.event).result.accept ≡ false
    → dispatch_one ctl callback fuel r.event r.broken r.epoll_in r.epoll_out w ≡ some (passed r w)
unfolding dispatch_one ext_post
dispatch_one-passed ctl callback fuel r w has ne plain = ground arith

-- A result changes neither the handle of an event nor whether it accepts.
same_event :
    (r : Ready) (w : World) (a : ℕ)
    → (w.ev r.event).result.accept ≡ false
    → (((passed r w).ev a).handle ≡ (w.ev a).handle)
      × (((passed r w).ev a).result.accept ≡ (w.ev a).result.accept)
same_event r w a plain = (ground arith, ground arith)

deletions-passed :
    (r : Ready) (w : World) (rs : List Ready)
    → (w.ev r.event).result.accept ≡ false
    → deletions (passed r w).ev rs ≡ deletions w.ev rs
deletions-passed r w [] plain = refl
deletions-passed r w (q ∷ rs) plain =
    ap₂ (λ (l : List Call) (h : ℕ). if q.broken then l else ctl_del h ∷ l)
      (deletions-passed r w rs plain) (same_event r w q.event plain).0

ArePlain-passed :
    (r : Ready) (w : World) (rs : List Ready)
    → (w.ev r.event).result.accept ≡ false
    → ArePlain w.ev rs
    → ArePlain (passed r w).ev rs
ArePlain-passed r w rs plain no_results = no_results
ArePlain-passed r w rs plain (one_result {rs = rs'} q ne accept more) =
    one_result q ne ((same_event r w q.event plain).1 ∙ accept) (ArePlain-passed r w rs' plain more)

-- What a round leaves.
pub record IsDispatched (rs : List Ready) (w w' : World) : Type 0 where
  pub handed : w'.ext_queue ≡ w.ext_queue ++ handed_over rs
  pub taken_out : w'.calls ≡ w.calls ++ deletions w.ev rs
  pub closed : w'.live ≡ freed rs w.live
  pub posted : w'.queue ≡ w.queue

-- With an EXTReactor a round of `epollDispatch` on events that do not accept connections ends without
-- running any event: those with EPOLLHUP or EPOLLERR are deleted, without being taken out of epoll, and
-- the others are taken out and enter the queue of the EXTReactor in the order of the results.
pub epoll_dispatch_lem :
    (ctl : Call → Bool) (callback : ℕ → World → World) (fuel : ℕ) (rs : List Ready) (w : World)
    → w.has_ext ≡ true
    → ArePlain w.ev rs
    → (w' : World) × (epoll_dispatch ctl callback fuel rs w ≡ some w') × IsDispatched rs w w'
unfolding epoll_dispatch
epoll_dispatch_lem ctl callback fuel [] w has no_results = (
  w,
  refl,
  record {
    handed = sym (append-nil w.ext_queue);
    taken_out = sym (append-nil w.calls);
    closed = refl;
    posted = refl;
  },
)
epoll_dispatch_lem ctl callback fuel (r ∷ rs') w has (one_result _ ne plain more) =
    let rest =
      epoll_dispatch_lem ctl callback fuel rs' (passed r w) (has_passed)
        (ArePlain-passed r w rs' plain more) in
    (
      rest.0,
      ap
            (λ o. elim o as (λ x. Option World) [
              | none ↦ none
              | some w' ↦ epoll_dispatch ctl callback fuel rs' w'
            ])
            (dispatch_one-passed ctl callback fuel r w has ne plain)
          ∙ rest.1,
      record {
        handed = rest.2.handed ∙ in_queue;
        taken_out =
            rest.2.taken_out
            ∙ ap (λ t. (passed r w).calls ++ t) (deletions-passed r w rs' plain)
            ∙ in_calls;
        closed = rest.2.closed ∙ in_memory;
        posted = rest.2.posted ∙ in_posted;
      },
    )
  where
    has_passed : (passed r w).has_ext ≡ true
    has_passed = ground arith

    in_queue : (passed r w).ext_queue ++ handed_over rs' ≡ w.ext_queue ++ handed_over (r ∷ rs')
    in_queue = ground (arith, append_assoc w.ext_queue (r.event ∷ []) (handed_over rs'))

    in_calls : (passed r w).calls ++ deletions w.ev rs' ≡ w.calls ++ deletions w.ev (r ∷ rs')
    in_calls =
        ground
          (arith, append_assoc w.calls (ctl_del (w.ev r.event).handle ∷ []) (deletions w.ev rs'))

    in_memory : freed rs' (passed r w).live ≡ freed (r ∷ rs') w.live
    in_memory = ground arith

    in_posted : (passed r w).queue ≡ w.queue
    in_posted = ground arith
