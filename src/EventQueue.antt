-- ===== src/EventQueue.antt =====
-- NfUnit/eventqueue.h and NfUnit/eventqueue.cpp: `EQueue`, the queue of events linked through their
-- own `_next` and `_pre` fields. An event is the address of its object; the two fields of all events
-- are maps. Events handed to the queue are not NULL (the code dereferences them). `ELQueue` runs each
-- of these operations under a mutex, so each is one step of it as well.
pub mod Links
pub mod Push
pub mod Pop
pub mod Erase
pub mod Block
pub mod Wait
pub mod Drain
use nf_server.Prelude.{
  ℕ, zero, suc, ◌+◌, ◌-◌, ◌^◌, Bool, Option, none, some, List, [], ◌∷◌, ltb, leb, ◌==◌,
  if◌then◌else◌, update, length,
}
use nf_server.Prelude.Int.{ℤ, pos, negsuc, ◌+ℤ◌, sub_ℕ}

abbrev pub null : ℕ
null = 0

pub record EQueue : Type 0 where
  pub next : ℕ → ℕ
  pub previous : ℕ → ℕ
  pub begin : ℕ
  pub end : ℕ
  pub cap : ℕ
  pub used : ℤ

-- `used -= n`.
abbrev pub minus : ℤ → ℕ → ℤ
minus (pos m) n = sub_ℕ m n
minus (negsuc m) n = negsuc (m + n)

-- `size_t size()`: a negative count wraps.
unfoldable pub size : EQueue → ℕ
size q = elim q.used [ pos n ↦ n | negsuc n ↦ 2 ^ 64 - n - 1 ]

unfoldable pub empty : EQueue → Bool
empty q = q.begin == null

unfoldable pub full : EQueue → Bool
unfolding size
full q = leb q.cap (size q)

-- The constructor, in the memory of the events.
unfoldable pub new_queue : (ℕ → ℕ) → (ℕ → ℕ) → EQueue
new_queue next previous = record {
  next = next;
  previous = previous;
  begin = null;
  end = null;
  cap = 100000;
  used = pos 0;
}

unfoldable pub set_max_size : ℕ → EQueue → EQueue
set_max_size n q = record q { cap = n }

pub clear : EQueue → EQueue
clear q = record q { begin = null; end = null; used = pos 0 }

-- The body of the loop of `pushs`.
unfoldable pub link : ℕ → EQueue → EQueue
link ev q =
    if q.end == null
    then record q {
      previous = update q.previous ev null;
      next = update q.next ev null;
      begin = ev;
      end = ev;
    }
    else record q {
      next = update (update q.next ev null) q.end ev;
      previous = update q.previous ev q.end;
      end = ev;
    }

unfoldable pub link_all : List ℕ → EQueue → EQueue
link_all [] q = q
link_all (ev ∷ evs) q = link_all evs (link ev q)

-- `none` is a NULL array.
unfoldable pub pushs : Option (List ℕ) → EQueue → ℕ × EQueue
pushs none q = (0, q)
pushs (some evs) q =
    let r = link_all evs q in (length evs, record r { used = r.used +ℤ pos (length evs) })

unfoldable pub push : ℕ → EQueue → ℕ × EQueue
push ev q = pushs (some (ev ∷ [])) q

-- The first event taken off, with both its links cleared.
abbrev pub unlink_first : EQueue → EQueue
unlink_first q = record q {
  begin = q.next q.begin;
  next = update q.next q.begin null;
  previous = update q.previous q.begin null;
}

abbrev pub first_has_no_previous : EQueue → EQueue
first_has_no_previous q = record q { previous = update q.previous q.begin null }

-- The loop of `pops` at `i`, with `k` rounds left: the count, the events, and the queue.
pub pops_loop : ℕ → ℕ → EQueue → ℕ × List ℕ × EQueue
pops_loop zero i q = (i, [], record q { used = minus q.used i })
pops_loop (suc k) i q =
    let ev = q.begin in
    let r = unlink_first q in
    let rest = pops_loop k (i + 1) (first_has_no_previous r) in
    if q.begin == null
    then (i, [], record q { used = minus q.used i })
    else if r.begin == null
    then (i + 1, ev ∷ [], record r { end = null; used = minus r.used (i + 1) })
    else (rest.0, ev ∷ rest.1, rest.2)

pub pops : ℕ → EQueue → ℕ × List ℕ × EQueue
pops items q = pops_loop items 0 q

-- `null` is returned for an empty queue.
unfoldable pub pop : EQueue → ℕ × EQueue
pop q =
    let r = unlink_first q in
    if q.begin == null
    then (null, q)
    else if r.begin == null
    then (q.begin, record r { end = null; used = minus r.used 1 })
    else (q.begin, record (first_has_no_previous r) { used = minus r.used 1 })

-- The end of `erase`.
abbrev pub unlinked : ℕ → EQueue → EQueue
unlinked ev q = record q {
  next = update q.next ev null;
  previous = update q.previous ev null;
  used = minus q.used 1;
}

-- The three ways `erase` goes round the event.
abbrev pub erase_first : EQueue → EQueue
erase_first q =
    let r : EQueue = record q { begin = q.next q.begin } in
    if r.begin == null then record r { end = null } else first_has_no_previous r

abbrev pub erase_last : EQueue → EQueue
erase_last q =
    let r : EQueue = record q { end = q.previous q.end } in
    if r.end == null
    then record r { begin = null }
    else record r { next = update r.next r.end null }

abbrev pub erase_between : ℕ → EQueue → EQueue
erase_between ev q =
    let r : EQueue = record q { next = update q.next (q.previous ev) (q.next ev) } in
    record r { previous = update r.previous (r.next ev) (r.previous ev) }

pub erase : ℕ → EQueue → EQueue
erase ev q =
    if ev == null
    then q
    else unlinked ev (
        if ev == q.begin
        then erase_first q
        else if ev == q.end
        then erase_last q
        else erase_between ev q)
