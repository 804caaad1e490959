-- ===== src/Examples/Waits.antt =====
-- Examples for the threads that wait in a BlockEQueue.
use nf_server.Prelude.{
  ℕ, ◌≡◌, refl, inl, true, false, some, List, [], ◌∷◌, ◌++◌, arith, get_elem?, set,
}
use nf_server.EventQueue.{
  EQueue, empty, full, size, new_queue, set_max_size, push, pushs, pop, link, link_all,
}
use nf_server.EventQueue.Wait.{
  Call, a_push, a_pop, arriving, asleep, woken, returned, Monitor, takes, must_wait, perform,
  silent, wakes_one, arrives, sleeps, goes, Step, Steps, none_yet, and_then, opened,
}
use nf_server.EventQueue.Wait.Taker.{empty-asleep}
use nf_server.EventQueue.Wait.Adder.{AreNew, Leaves}
use nf_server.EventQueue.Wait.Progress.{woken-asleep}
use nf_server.EventQueue.Links.{Holds}
use nf_server.EventQueue.Wait.Order.{added, taken, taken-added}
use nf_server.EventQueue.Wait.Missed.{asleep-perform}

abbrev nothing : ℕ → ℕ
nothing a = 0

abbrev taker_asleep : Monitor
taker_asleep = record {
  queue = set_max_size 1 (new_queue nothing nothing);
  held = [];
  waits = 1;
  threads = asleep a_pop ∷ [];
}

taker_sleeps : Steps (Leaves 1) (opened 1 nothing nothing) taker_asleep
unfolding empty set_max_size new_queue
taker_sleeps =
    and_then (and_then none_yet (arrives a_pop))
      (sleeps 0 (arriving a_pop) a_pop 0 refl (inl (refl, refl)) refl)

empty-asleep_example : empty taker_asleep.queue ≡ true
empty-asleep_example =
    empty-asleep 1 nothing nothing {m = taker_asleep} 0 a_pop taker_sleeps refl refl

-- Two threads push to a queue of capacity 2, two more wait, and two take.
abbrev full_queue : EQueue
full_queue = perform (a_push 2) (perform (a_push 1) (set_max_size 2 (new_queue nothing nothing)))

abbrev adders_asleep : Monitor
adders_asleep = record {
  queue = full_queue;
  held = 1 ∷ 2 ∷ [];
  waits = 2;
  threads = returned ∷ returned ∷ asleep (a_push 3) ∷ asleep (a_push 4) ∷ [];
}

abbrev adder_woken : Monitor
adder_woken = record {
  queue = perform a_pop (perform a_pop full_queue);
  held = [];
  waits = 2;
  threads = returned ∷ returned ∷ woken (a_push 3) ∷ asleep (a_push 4) ∷ returned ∷ returned ∷ [];
}

adder_wakes :
    (allow : List ℕ → Call → Type 0)
    → allow [] (a_push 1)
    → allow (1 ∷ []) (a_push 2)
    → allow (1 ∷ 2 ∷ []) a_pop
    → allow (2 ∷ []) a_pop
    → Steps allow (opened 2 nothing nothing) adder_woken
unfolding empty full size set_max_size new_queue push pushs pop link_all link
adder_wakes allow first second third fourth =
    let one = and_then (and_then none_yet (arrives (a_push 1))) (
      goes 0 (arriving (a_push 1)) (a_push 1) 0 (returned ∷ []) refl (inl (refl, refl)) refl first
        silent) in
    let two = and_then (and_then one (arrives (a_push 2))) (
      goes 1 (arriving (a_push 2)) (a_push 2) 0 (returned ∷ returned ∷ []) refl (inl (refl, refl))
        refl second silent) in
    let three =
      and_then (and_then two (arrives (a_push 3)))
        (sleeps 2 (arriving (a_push 3)) (a_push 3) 0 refl (inl (refl, refl)) refl) in
    let four =
      and_then (and_then three (arrives (a_push 4)))
        (sleeps 3 (arriving (a_push 4)) (a_push 4) 1 refl (inl (refl, refl)) refl) in
    let five =
      and_then (and_then four (arrives a_pop))
        (goes 4 (arriving a_pop) a_pop 2 _ refl (inl (refl, refl)) refl third silent) in
    and_then (and_then five (arrives a_pop)) (
      goes 5 (arriving a_pop) a_pop 2 _ refl (inl (refl, refl)) refl fourth
        (wakes_one 2 (a_push 3) refl))

leaving : Steps (Leaves 2) (opened 2 nothing nothing) adder_woken
leaving =
    adder_wakes (Leaves 2) (omega arith, refl, tt) (omega arith, refl, tt) (λ filled. omega arith)
      (λ filled. absurd (omega (arith, filled)))

adding : Steps AreNew (opened 2 nothing nothing) adder_woken
adding = adder_wakes AreNew (omega arith, refl, tt) (omega arith, refl, tt) tt tt

woken-asleep_example :
    (j : ℕ) × (d : Call) × (get_elem? adder_woken.threads j ≡ some (woken d))
    × (takes d ≡ false)
    × (must_wait d adder_woken.queue ≡ false)
unfolding empty push pushs pop link_all link set_max_size new_queue
woken-asleep_example =
    woken-asleep 2 nothing nothing {m = adder_woken} 3 (a_push 4) (omega arith) leaving refl refl
      refl

abbrev taker_arrived : Monitor
taker_arrived = record adders_asleep { threads = adders_asleep.threads ++ (arriving a_pop ∷ []) }

-- The state after the `pop` of the full queue.
abbrev taker_returned : Monitor
taker_returned = record {
  queue = perform a_pop taker_arrived.queue;
  held = 2 ∷ [];
  waits = 2;
  threads = set taker_arrived.threads 4 returned;
}

taker_goes : Step AreNew taker_arrived taker_returned
unfolding full size empty set_max_size new_queue push pushs link_all link
taker_goes = goes 4 (arriving a_pop) a_pop 2 _ refl (inl (refl, refl)) refl tt silent

asleep-perform_example :
    (get_elem? taker_returned.threads 2 ≡ some (asleep (a_push 3)))
    × (full taker_returned.queue ≡ false)
unfolding set_max_size new_queue push pushs link_all link
asleep-perform_example =
    asleep-perform 2 4 (a_push 3) a_pop (arriving a_pop)
      (record {
        links = record {
          linked = (omega arith, refl, refl, (omega arith, refl, refl, tt));
          first = refl;
          last = refl;
          distinct = (refl, (refl, tt));
        };
        counted = refl;
      })
      refl (omega arith) (inl refl) (λ eq. omega (arith, eq)) refl refl (inl refl) taker_goes refl

taken-added_example :
    Holds adder_woken.queue adder_woken.held × (taken adding ++ adder_woken.held ≡ added adding)
taken-added_example = taken-added 2 nothing nothing {m = adder_woken} adding
