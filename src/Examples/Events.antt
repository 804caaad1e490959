-- ===== src/Examples/Events.antt =====
-- Examples for reactor.cpp: event 1 reads and event 2 writes on file descriptor 5.
use nf_server.Prelude.{
  List, ◌≡◌, refl, Bool, true, false, some, [], ◌∷◌, ◌==◌, if◌then◌else◌, arith,
}
use nf_server.Prelude.Int.{pos, success, failure}
use nf_server.Reactor.{Event, Reactor, Call, null}
use nf_server.Reactor.Registry.{add_event, del_event}
use nf_server.Reactor.Registry.Add.{IsAdded, add_event_lem}
use nf_server.Reactor.Registry.Delete.{IsKept}
use nf_server.Reactor.Dispatch.{Ready, on_broken, dispatch_all}
use nf_server.Reactor.Dispatch.Tasks.{
  picked, asked, wanted, no_results, one_result, IsClaimed, dispatch_all-IsClaimed,
}
use nf_server.Reactor.Dispatch.Hangup.{on_broken_lem}

abbrev event : (reads inserted epoll_active : Bool) → Event
event reads inserted epoll_active = record {
  ev_fd = 5;
  reads = reads;
  writes = if reads then false else true;
  timeout = false;
  listen = false;
  inited = true;
  inserted = inserted;
  active = false;
  epoll_active = epoll_active;
  owned = inserted;
}

abbrev reactor : (threaded inserted epoll_active : Bool) → Reactor
reactor threaded inserted epoll_active = record {
  ev = λ p. event (p == 1) inserted epoll_active;
  live = λ p. true;
  evread = λ fd. if inserted then 1 else 3;
  evwrite = λ fd. 2;
  ev_list = 1 ∷ 2 ∷ [];
  event_count = pos 2;
  nfile = 1024;
  threaded = threaded;
  ready = true;
  calls = [];
  tasks = [];
}

abbrev accept_all : Call → Bool
accept_all c = true

add_event_lem_example :
    (r' : Reactor) × (add_event accept_all 1 false false (reactor false false false)
      ≡ some (success, r'))
    × IsAdded 1 (reactor false false false) r'
add_event_lem_example =
    add_event_lem accept_all 1 (reactor false false false)
      (record {
        not_null = λ e. omega arith;
        in_range = omega arith;
        elsewhere = λ e. omega (arith, e);
        inited = refl;
        inserted = refl;
        reads = refl;
        writes = refl;
      })
      refl

reader-IsKept : IsKept 1 (reactor true true true)
reader-IsKept = record {
  not_null = λ e. omega arith;
  in_range = omega arith;
  one_way = refl;
  inserted = refl;
  owned = refl;
  slot = refl;
}

writer-IsKept : IsKept 2 (reactor true true true)
writer-IsKept = record {
  not_null = λ e. omega arith;
  in_range = omega arith;
  one_way = refl;
  inserted = refl;
  owned = refl;
  slot = refl;
}

on_broken_lem_example :
    (r' : Reactor) × (on_broken accept_all (λ p r. r) 5 (reactor true true true) ≡ some r')
    × (r'.live 1 ≡ false)
    × (r'.evread 5 ≡ null)
    × (r'.live 2 ≡ true)
    × (r'.evwrite 5 ≡ 2)
    × (del_event accept_all 2 r' ≡ some (failure, r'))
on_broken_lem_example =
    on_broken_lem accept_all (λ p r. r) 5 (reactor true true true) (λ c. refl)
      (record {
        threads = refl;
        reader = reader-IsKept;
        writer = writer-IsKept;
        reader_fd = refl;
        writer_fd = refl;
        reads = refl;
        writes = refl;
        reader_idle = refl;
        writer_idle = refl;
      })

-- The reading event is named twice.
abbrev arrived : List Ready
arrived =
    record { fd = 5; hup = false; err = false; readable = true; writable = false }
    ∷ record { fd = 5; hup = false; err = false; readable = true; writable = true }
    ∷ record { fd = 5; hup = false; err = false; readable = false; writable = true }
    ∷ []

dispatch_all-IsClaimed_example :
    (r' : Reactor) × (dispatch_all accept_all (λ p r. r) arrived (reactor true true true) ≡ some r')
    × IsClaimed (2 ∷ 1 ∷ []) (reactor true true true) r'
unfolding picked asked wanted
dispatch_all-IsClaimed_example =
    dispatch_all-IsClaimed accept_all (λ p r. r) arrived (reactor true true true)
      (one_result _ refl refl (one_result _ refl refl (one_result _ refl refl no_results)))
      (record { threads = refl; no_listener = λ fd. refl })
