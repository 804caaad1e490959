-- ===== src/Examples/Queues.antt =====
-- Examples for commonn/queue.cpp and NfUnit/eventqueue.cpp.
use nf_server.Prelude.{ℕ, ◌+◌, ◌≡◌, refl, List, [], ◌∷◌, ◌++◌, some, arith}
use nf_server.Prelude.Int.{pos, success}
use nf_server.RingQueue.{Queue, live, dangling, create_q}
use nf_server.RingQueue.Runs.{Op, put, get, run, run_fifo, run-create_q}
use nf_server.EventQueue.{EQueue, new_queue, pushs, erase}
use nf_server.EventQueue.Links.{Holds}
use nf_server.EventQueue.Push.{pushs_lem}
use nf_server.EventQueue.Erase.{erase_lem}

abbrev slots : List ℕ
slots = 0 ∷ 0 ∷ 0 ∷ []

abbrev blank : Queue
blank = record { cap = 0; size = 0; rear = 0; front = 0; array = dangling }

abbrev calls : List Op
calls = put 5 ∷ put 6 ∷ get ∷ put 7 ∷ put 8 ∷ put 9 ∷ get ∷ get ∷ []

run-create_q_example :
    ((create_q (live slots) blank (pos 2)).0 ≡ success)
    × (run (create_q (live slots) blank (pos 2)).1 calls ≡ run_fifo (2 + 1) [] calls)
run-create_q_example = run-create_q slots blank 2 calls (omega arith) refl

abbrev unlinked_memory : EQueue
unlinked_memory = new_queue (λ a. 0) (λ a. 0)

abbrev two : List ℕ
two = 7 ∷ 9 ∷ []

start-Holds : Holds unlinked_memory []
unfolding new_queue
start-Holds = record {
  links = record { linked = tt; first = refl; last = refl; distinct = tt };
  counted = refl;
}

abbrev filled : EQueue
filled = (pushs (some two) unlinked_memory).1

filled-Holds : Holds filled two
filled-Holds =
    (pushs_lem [] two start-Holds ((λ e. omega arith), refl, ((λ e. omega arith), refl, tt))).1

erase_lem_example : Holds (erase 9 filled) ((7 ∷ []) ++ [])
erase_lem_example = erase_lem (7 ∷ []) 9 [] filled-Holds
