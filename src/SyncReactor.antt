-- ===== src/SyncReactor.antt =====
-- interface/ievent.h, interface/icore.cpp, NfUnit/syncReactor.cpp and parts of NfUnit/extreactor.cpp:
-- an event goes from `post` to epoll, from epoll to the queue of the EXTReactor or to its callback, and
-- from its callback back to `post` or to `delete`. Events are numbers and NULL is 0; a use of NULL and a
-- failed `assert` give `none`. The two queues are lists; the callback of an event, which the user writes,
-- and the answer of `epoll_ctl` are parameters.
pub mod Post
pub mod Dispatch
pub mod Ext
pub mod Life
pub mod Cancel
pub mod Workers
pub mod Accept
use Prim.Native.Nat.{bit_and}
use nf_server.Prelude.{
  ℕ, zero, suc, ◌≡◌, Bool, true, false, not, ◌&&◌, ◌||◌, Option, none, some, List, [], ◌∷◌, ◌++◌,
  ◌==◌, if◌then◌else◌, update,
}
use nf_server.Prelude.Int.{ℤ, pos, success, failure}

-- `status` of an event.
pub data Status : Type 0 where
  init ready running done canceled : Status

-- `type` of an event, and its number in the enumeration.
pub data Kind : Type 0 where
  cpu net : Kind

abbrev pub code : Kind → ℕ
code cpu = 0
code net = 1

-- `ev->type() & flag` as a condition.
pub has_flag : Kind → ℕ → Bool
has_flag k flag = not (bit_and (code k) flag == 0)

-- The bits of `result` that the reactors read.
pub record Bits : Type 0 where
  pub readable : Bool
  pub writeable : Bool
  pub closesock : Bool
  pub accept : Bool
  pub error : Bool

-- What `reactor` of an event points at.
pub data Owner : Type 0 where
  nobody sync ext : Owner

pub record Event : Type 0 where
  pub handle : ℕ
  pub kind : Kind
  pub status : Status
  pub result : Bits
  pub reused : Bool
  pub owner : Owner

-- `status` of a reactor.
pub data Phase : Type 0 where
  idle stopped active paused : Phase

-- A call of `epoll_ctl`; EPOLLHUP and EPOLLERR are in every mask.
pub data Call : Type 0 where
  ctl_add : (ev handle : ℕ) (epoll_in epoll_out : Bool) → Call
  ctl_del : (handle : ℕ) → Call

-- A SyncReactor with its EXTReactor, if it has one, and the events. `queue` is `_queue` of the
-- SyncReactor and `ext_queue` that of the EXTReactor, first in front; `calls` holds the calls of
-- `epoll_ctl`, the oldest first; `live` turns false where an event is deleted.
pub record World : Type 0 where
  pub ev : ℕ → Event
  pub live : ℕ → Bool
  pub phase : Phase
  pub has_ext : Bool
  pub queue : List ℕ
  pub ext_queue : List ℕ
  pub calls : List Call

abbrev pub set_event : ℕ → (Event → Event) → World → World
set_event p f w = record w { ev = update w.ev p (f (w.ev p)) }

abbrev call : Call → World → World
call c w = record w { calls = w.calls ++ (c ∷ []) }

abbrev pub discard : ℕ → World → World
discard p w = record w { live = update w.live p false }

abbrev is_active : Phase → Bool
is_active active = true
is_active _ = false

-- The owner after `if(ev->reactor() == NULL) ev->setReactor(this)`.
abbrev pub or_ext : Owner → Owner
or_ext nobody = ext
or_ext sync = sync
or_ext ext = ext

-- `EXTReactor::post` of an EXTReactor that has its queue from `setQueue`, so that its `assert` holds. Its test
-- of the type always holds, since CPU and NET are all there are; `push` of a BlockEQueue gives 1 once it
-- goes through, and so `post` gives 0.
pub ext_post : ℕ → World → ℤ × World
ext_post p w =
    let owned = or_ext (w.ev p).owner in
    if p == 0 then (failure, w) else (
      success,
      record (set_event p (λ e. record e { owner = owned; status = ready }) w) {
        ext_queue = w.ext_queue ++ (p ∷ []);
      },
    )

-- A result of `epoll_wait`: the event in `data.ptr`, whether EPOLLHUP or EPOLLERR is set, and the two
-- other bits.
pub record Ready : Type 0 where
  pub event : ℕ
  pub broken : Bool
  pub epoll_in : Bool
  pub epoll_out : Bool

module _ (ctl : Call → Bool) where
  -- `SyncReactor::epollAdd`.
  pub epoll_add : ℕ → World → ℤ × World
  unfolding has_flag
  epoll_add p w =
      let c = ctl_add p (w.ev p).handle (w.ev p).result.readable (w.ev p).result.writeable in
      if p == 0
      then (failure, w)
      else if not (has_flag (w.ev p).kind 1)
      then (failure, w)
      else (if ctl c then success else failure, call c w)

  -- `SyncReactor::post`, with `extEvent` as `extern`.
  pub post : (ℕ → World → Option World) → ℕ → World → Option World
  unfolding has_flag ext_post epoll_add
  post extern p w =
      let w' = set_event p (λ e. record e { owner = sync; status = ready }) w in
      if p == 0
      then none
      else if not (is_active w.phase)
      then some (record w' { queue = w'.queue ++ (p ∷ []) })
      else if has_flag (w'.ev p).kind 0
      then (if w'.has_ext then some (ext_post p w').1 else extern p w')
      else if has_flag (w'.ev p).kind 1
      then some (epoll_add p w').1
      else some w'

  module _ (callback : ℕ → World → World) where
    -- `(ev->reactor())->post(ev)`.
    pub repost : (ℕ → World → Option World) → ℕ → World → Option World
    unfolding post
    repost extern p w = elim (w.ev p).owner [
      | nobody ↦ none
      | sync ↦ post extern p w
      | ext ↦ some (ext_post p w).1
    ]

    -- `IReactor::extEvent` after the callback.
    pub settle : (ℕ → World → Option World) → ℕ → World → Option World
    unfolding repost
    settle extern p w =
        let again = repost extern p w in
        elim (w.ev p).status [
          | canceled ↦ some (discard p w)
          | running ↦ if (w.ev p).result.accept then some w else again
          | done ↦ if (w.ev p).reused then again else some (discard p w)
          | init ↦ some (discard p w)
          | ready ↦ some (discard p w)
        ]

    -- `IReactor::extEvent`; `fuel` bounds the calls that stand in one another.
    pub ext_event : (fuel : ℕ) → ℕ → World → Option World
    unfolding settle
    ext_event zero p w = none
    ext_event (suc fuel) p w =
        if p == 0
        then none
        else settle (ext_event fuel) p
            (callback p (set_event p (λ e. record e { status = running }) w))

    -- The loop `while(!_queue.empty())` of `SyncReactor::callback` for at most `rounds` rounds, on the
    -- queue that is given; `none` also where there are events left after them.
    pub drain : (rounds : ℕ) → (ℕ → World → Option World) → List ℕ → World → Option World
    unfolding post
    drain rounds extern [] w = some w
    drain zero extern (p ∷ ps) w = none
    drain (suc rounds) extern (p ∷ ps) w = elim (post extern p (record w { queue = ps })) [
      | none ↦ none
      | some w' ↦ drain rounds extern w'.queue w'
    ]

    -- One result of `epoll_wait` in `epollDispatch`: the event and the bits of the mask.
    pub dispatch_one : (fuel : ℕ) → ℕ → (broken epoll_in epoll_out : Bool) → World → Option World
    unfolding ext_event ext_post
    dispatch_one fuel p broken epoll_in epoll_out w =
        let accept = (w.ev p).result.accept in
        let w₁ =
          set_event p
            (λ e. record e {
              result = record {
                readable = epoll_in;
                writeable = epoll_out;
                closesock = broken;
                accept = accept;
                error = false;
              };
            })
            w in
        let w₂ = call (ctl_del (w.ev p).handle) w₁ in
        let accepted = ext_event fuel p w₁ in
        let executed = ext_event fuel p w₂ in
        if broken
        then some (discard p w₁)
        else if accept
        then accepted
        else if w.has_ext
        then some (ext_post p w₂).1
        else executed

    -- The loop of `epollDispatch` over the results of `epoll_wait`.
    pub epoll_dispatch : (fuel : ℕ) → List Ready → World → Option World
    unfolding dispatch_one
    epoll_dispatch fuel [] w = some w
    epoll_dispatch fuel (r ∷ rs) w =
        elim (dispatch_one fuel r.event r.broken r.epoll_in r.epoll_out w) [
          | none ↦ none
          | some w' ↦ epoll_dispatch fuel rs w'
        ]
