-- ===== src/RingQueue.antt =====
-- commonn/queue.h and commonn/queue.cpp: the circular queue of `int`s. A function that updates `*q`
-- returns the new queue beside its return code.
pub mod Fifo
pub mod Inv
pub mod Items
pub mod Refine
pub mod Runs
use nf_server.Prelude.{
  ℕ, ◌+◌, ◌-◌, Bool, true, false, ◌||◌, Option, none, some, List, ltb, leb, ◌==◌, if◌then◌else◌,
  get_elem?, set,
}
use nf_server.Prelude.Int.{ℤ, pos, success, failure, pos_part, ◌+ℤ◌, ltb_ℤ}

-- What `int *array` points at: nothing, a block, or a block that was freed.
pub data Storage : Type 0 where
  null : Storage
  live : List ℕ → Storage
  dangling : Storage

-- `queue_t`. The values are only moved, so a number stands for an `int`.
pub record Queue : Type 0 where
  pub cap : ℕ
  pub size : ℕ
  pub rear : ℕ
  pub front : ℕ
  pub array : Storage

abbrev pub is_null : Storage → Bool
is_null null = true
is_null (live xs) = false
is_null dangling = false

abbrev write : Storage → ℕ → ℕ → Storage
write null i v = null
write (live xs) i v = live (set xs i v)
write dangling i v = dangling

-- `none` is a read through a bad pointer or out of range.
abbrev read : Storage → ℕ → Option ℕ
read null i = none
read (live xs) i = get_elem? xs i
read dangling i = none

is_empty_q : Queue → Bool
is_empty_q q = is_null q.array || (q.size == 0)

is_full_q : Queue → Bool
is_full_q q = is_null q.array || leb q.cap q.size

empty_q : Queue → Queue
empty_q q = record q { size = 0; rear = 1; front = 0 }

-- `block` is what `malloc` returns.
pub create_q : Storage → Queue → ℤ → ℤ × Queue
unfolding empty_q
create_q block q qcap =
    let c = qcap +ℤ pos 1 in
    if ltb_ℤ c (pos 2) then (failure, q) else (
      if is_null block then failure else success,
      record (empty_q (record q { cap = pos_part c })) { array = block },
    )

-- `if (++i >= cap) i = 0;`
abbrev pub step_index : ℕ → ℕ → ℕ
step_index cap i = if leb cap (i + 1) then 0 else i + 1

pub push_q : Queue → ℕ → ℤ × Queue
unfolding is_full_q
push_q q val = if is_full_q q then (failure, q) else (
  success,
  record q { array = write q.array q.rear val; size = q.size + 1; rear = step_index q.cap q.rear },
)

-- The option is what goes through `*val`. `-- size` runs only at a size that is not 0.
pub pop_q : Queue → ℤ × Option ℕ × Queue
unfolding is_empty_q
pop_q q = if is_empty_q q then (failure, none, q) else (
  success,
  read q.array (step_index q.cap q.front),
  record q { front = step_index q.cap q.front; size = q.size - 1 },
)

pub destroy_q : Queue → ℤ × Queue
destroy_q q = (success, record q { cap = 0; array = dangling })
