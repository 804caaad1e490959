-- ===== src/Examples/Posts.antt =====
-- Examples for NfUnit/syncReactor.cpp and interface/icore.cpp.
use nf_server.Prelude.{
  length, ℕ, ◌+◌, ◌≡◌, ◌++◌, refl, ap, Bool, true, false, Option, none, some, List, [], ◌∷◌, ◌==◌,
  if◌then◌else◌, arith, update,
}
use nf_server.SyncReactor.{
  canceled, Event, cpu, net, init, done, Owner, nobody, sync, Phase, active, Call, World, Ready,
  set_event, post, ext_event, epoll_dispatch,
}
use nf_server.SyncReactor.Ext.{empty_queue, IsFinishing, all_freed, empty_queue_lem}
use nf_server.SyncReactor.Cancel.{cancel, ext_cancel, ext_event-cancel}
use nf_server.SyncReactor.Accept
use nf_server.SyncReactor.Accept.{served, epoll_dispatch-accepting}
use nf_server.SyncReactor.Post.{no_events, one_event}
use nf_server.SyncReactor.Dispatch.{
  is_finished, called, lives, no_results, one_result, IsDispatched, ext_event_lem,
  epoll_dispatch_lem,
}

-- Event 1 is of type CPU, the others of type NET.
abbrev event : ℕ → Owner → Event
event p owner = record {
  handle = p + 10;
  kind = if p == 1 then cpu else net;
  status = init;
  result = record {
    readable = true;
    writeable = false;
    closesock = false;
    accept = false;
    error = false;
  };
  reused = false;
  owner = owner;
}

abbrev world : Owner → Phase → List ℕ → World
world owner phase queue = record {
  ev = λ p. event p owner;
  live = λ p. true;
  phase = phase;
  has_ext = true;
  queue = queue;
  ext_queue = [];
  calls = [];
}

abbrev accept_all : Call → Bool
accept_all c = true

abbrev no_extern : ℕ → World → Option World
no_extern p w = none

-- A callback that is done with its event.
abbrev finish : ℕ → World → World
finish p w = set_event p (λ e. record e { status = done }) w

abbrev waiting : List ℕ
waiting = 3 ∷ 1 ∷ 2 ∷ []

-- `pthread_create` gives its number to each thread.
abbrev thread : ℕ → Option ℕ
thread j = some j

ext_event_lem_example :
    let w₁ : World = called finish 2 (world sync active []) in
    lives (ext_event accept_all finish 1 2 (world sync active []))
    ≡ some (if is_finished (w₁.ev 2) then update w₁.live 2 false else w₁.live)
ext_event_lem_example =
    ext_event_lem accept_all finish 0 2 (world sync active []) (λ e. omega arith)
      (λ e. owner_is (ap (λ o. is_nobody o) e))
  where
    is_nobody : Owner → Bool
    is_nobody nobody = true
    is_nobody _ = false

    owner_is : false ≡ true → ⊥
    owner_is e = cc

abbrev results : List Ready
results =
    record { event = 2; broken = false; epoll_in = true; epoll_out = false }
    ∷ record { event = 3; broken = true; epoll_in = false; epoll_out = false }
    ∷ []

epoll_dispatch_lem_example :
    (w' : World) × (epoll_dispatch accept_all finish 1 results (world sync active []) ≡ some w')
    × IsDispatched results (world sync active []) w'
epoll_dispatch_lem_example =
    epoll_dispatch_lem accept_all finish 1 results (world sync active []) refl
      (one_result _ (λ e. omega arith) refl (one_result _ (λ e. omega arith) refl no_results))

-- A callback that cancels its event.
abbrev give_up : ℕ → World → World
give_up p w = set_event p (λ e. record e { status = canceled }) w

give_up-IsFinishing : IsFinishing give_up
give_up-IsFinishing = record {
  finishes = λ p w. ground arith;
  keeps_queue = λ p w. refl;
  keeps_live = λ p w. refl;
}

abbrev loaded : World
loaded = record (world sync active []) { ext_queue = waiting }

empty_queue_lem_example :
    (w' : World) × (empty_queue accept_all give_up (length waiting) 1 waiting loaded ≡ some w')
    × (w'.ext_queue ≡ [])
    × (w'.live ≡ all_freed waiting loaded.live)
empty_queue_lem_example = empty_queue_lem accept_all 0 loaded give_up-IsFinishing (
    one_event 3 (λ e. omega arith)
      (one_event 1 (λ e. omega arith) (one_event 2 (λ e. omega arith) no_events)))

ext_event-cancel_example :
    (ext_event accept_all finish 3 2 (cancel 2 (world sync active [])).1
      ≡ ext_event accept_all finish 3 2 (world sync active []))
    × (ext_event accept_all finish 3 2 (ext_cancel 2 (world sync active [])).1
        ≡ ext_event accept_all finish 3 2 (world sync active []))
    × (post accept_all no_extern 2 (cancel 2 (world sync active [])).1
        ≡ post accept_all no_extern 2 (world sync active []))
ext_event-cancel_example = ext_event-cancel accept_all finish no_extern 3 2 (world sync active [])

-- Event 5 accepts connections; its callback puts a new event in the queue.
abbrev listening : World
listening = record (world nobody active []) {
  ev = λ p. record (event p nobody) {
    result = record {
      readable = true;
      writeable = false;
      closesock = false;
      accept = p == 5;
      error = false;
    };
  };
}

abbrev take_connection : ℕ → World → World
take_connection p w = record w { queue = w.queue ++ ((p + 100) ∷ []) }

abbrev connections : List Ready
connections =
    record { event = 5; broken = false; epoll_in = true; epoll_out = false }
    ∷ record { event = 5; broken = false; epoll_in = true; epoll_out = false }
    ∷ []

epoll_dispatch-accepting_example :
    epoll_dispatch accept_all take_connection 1 connections listening
    ≡ some (served take_connection connections listening)
epoll_dispatch-accepting_example =
    epoll_dispatch-accepting accept_all 0 connections listening
      (record { runs = λ p w. refl; accepts = λ p q w. refl })
      (Accept.one_result _ (λ e. omega arith) refl refl
        (Accept.one_result _ (λ e. omega arith) refl refl Accept.no_results))
