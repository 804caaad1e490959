-- ===== src/SyncReactor/Post.antt =====
-- What `post` and the start of `run` do with an event.
use nf_server.Prelude.{
  ℕ, not, ◌&&◌, if◌then◌else◌, ◌≡◌, ◌≢◌, refl, Bool, Option, none, some, List, [], ◌∷◌, ◌++◌,
  update, ◌⊎◌, inl, inr,
}
use nf_server.Prelude.Int.{ℤ, pos, failure, ltb_ℤ}
use nf_server.SyncReactor.{Kind, cpu, net, Event, sync, ready, World, Call, ctl_add, active, drain}
use nf_server.SyncReactor.Workers.{Workers, ext_run}

-- The calls of `epoll_ctl` that adding the event at `p` takes.
abbrev additions : Event → ℕ → List Call
additions e p = elim e.kind [
  | cpu ↦ []
  | net ↦ ctl_add p e.handle e.result.readable e.result.writeable ∷ []
]

pub Kind-cases : (k : Kind) → (k ≡ cpu) ⊎ (k ≡ net)
Kind-cases cpu = inl refl
Kind-cases net = inr refl

-- The state after `post` of the event at `p` in a running SyncReactor.
abbrev pub posted : ℕ → World → World
posted p w = record w {
  ev = update w.ev p (record (w.ev p) { owner = sync; status = ready });
  calls = w.calls ++ additions (w.ev p) p;
}

-- The calls that adding the events of a list takes, in its order.
abbrev additions_all : (ℕ → Event) → List ℕ → List Call
additions_all ev [] = []
additions_all ev (p ∷ ps) = additions (ev p) p ++ additions_all ev ps

-- Pointers to events.
pub data AreEvents : List ℕ → Type 0 where
  no_events : AreEvents []
  one_event : {ps : List ℕ} (p : ℕ) → p ≢ 0 → AreEvents ps → AreEvents (p ∷ ps)

-- What draining a list of events leaves.
pub record IsDrained (ps : List ℕ) (w w' : World) : Type 0 where
  pub emptied : w'.queue ≡ []
  pub running : w'.phase ≡ active
  pub waiting : w'.ext_queue ≡ w.ext_queue
  pub kept : w'.live ≡ w.live
  pub added : w'.calls ≡ w.calls ++ additions_all w.ev ps

-- Where `SyncReactor::run` gets, with the threads of the EXTReactor, if there is one.
pub data Started : Type 0 where
  -- the caller itself is in `callback` of the EXTReactor, which has no threads
  stays : Workers → Started
  -- `create` failed
  returns : ℤ → Option Workers → World → Started
  -- before the first `epoll_wait`
  loops : Option Workers → World → Started
  crashes : Started

-- The threads that `_extReactor->run()` starts, before any of them has done a step.
abbrev pub ext_threads : (ℕ → Option ℕ) → ℤ → World → Option Workers
ext_threads create threadsnum w =
    if w.has_ext then some (ext_run create threadsnum w.ext_queue) else none

-- `SyncReactor::run` up to the first `epoll_wait`; `create` gives the answers of `pthread_create` for the
-- `threadsnum` threads, and `created` says whether `SyncReactor::create` succeeds.
unfoldable pub run :
    (Call → Bool)
    → (ℕ → World → World)
    → (create : ℕ → Option ℕ) (threadsnum : ℤ) (created : Bool) (rounds : ℕ)
    → (ℕ → World → Option World)
    → World
    → Started
unfolding drain
run ctl callback create threadsnum created rounds extern w =
    let threads = ext_threads create threadsnum w in
    let w' : World = record w { phase = active } in
    if w.has_ext && not (ltb_ℤ (pos 0) threadsnum)
    then stays (ext_run create threadsnum w.ext_queue)
    else if not created
    then returns failure threads w'
    else elim (drain ctl callback rounds extern w.queue w') [
      | none ↦ crashes
      | some w'' ↦ loops threads w''
    ]
