-- ===== src/SmartPtr.antt =====
-- interface/iref.h, and the counting of EventBase (NfUnit/baseEvent.h and baseEvent.cpp): objects with a
-- count of references and the handles that hold them.
pub mod Counts
pub mod Safety
pub mod Uses
use nf_server.Prelude.{
  ℕ, zero, suc, ◌+◌, Bool, true, false, Option, none, some, List, [], ◌∷◌, ◌++◌, ◌==◌,
  if◌then◌else◌, get_elem?, set,
}

-- What a handle is: not constructed any more, NULL, or a pointer to the object at an address.
pub data Slot : Type 0 where
  gone null : Slot
  at : ℕ → Slot

-- `refs` gives the count of the object at an address, 0 where there is none (any more); `freed` the
-- addresses of the objects that were deleted, the newest first.
pub record Heap : Type 0 where
  pub refs : ℕ → ℕ
  pub freed : List ℕ
  pub slots : List Slot

abbrev pub update : (ℕ → ℕ) → ℕ → ℕ → ℕ → ℕ
update f a v b = if b == a then v else f b

-- `addRef`; an object that is not there is accessed.
unfoldable pub add_ref : ℕ → Heap → Option Heap
add_ref a h = elim (h.refs a) [
  | zero ↦ none
  | suc n ↦ some (record h { refs = update h.refs a (suc n + 1) })
]

-- `EventBase::release` after `delRef`, which returned the given count; whether it deletes the object.
unfoldable pub release_at : ℕ → ℕ → Heap → Bool × Heap
release_at a zero h = (true, record h { refs = update h.refs a 0; freed = a ∷ h.freed })
release_at a (suc n) h = (false, record h { refs = update h.refs a (suc n) })

-- `EventBase::release`.
unfoldable pub release : ℕ → Heap → Option (Bool × Heap)
unfolding release_at
release a h = elim (h.refs a) [ zero ↦ none | suc n ↦ some (release_at a n h) ]

-- The handle at an index takes a value.
abbrev pub put : ℕ → Slot → Heap → Heap
put i s h = record h { slots = set h.slots i s }

abbrev pub append : Slot → Heap → Heap
append s h = record h { slots = h.slots ++ (s ∷ []) }

-- `SmartPtr(new T)`, `new` giving the address: the object's count is 1.
unfoldable pub create : ℕ → Heap → Heap
create a h = append (at a) (record h { refs = update h.refs a 1 })

-- `SmartPtr()`.
unfoldable pub empty : Heap → Heap
empty h = append null h

-- `SmartPtr(const SmartPtr &)`, of the handle at an index; NULL is followed.
unfoldable pub copy : ℕ → Heap → Option Heap
unfolding add_ref
copy i h = elim (get_elem? h.slots i) [
  | none ↦ none
  | some gone ↦ none
  | some null ↦ none
  | some (at a) ↦ elim (add_ref a h) [ none ↦ none | some h' ↦ some (append (at a) h') ]
]

-- `~SmartPtr`.
unfoldable pub destroy : ℕ → Heap → Option Heap
unfolding release
destroy i h = elim (get_elem? h.slots i) [
  | none ↦ none
  | some gone ↦ none
  | some null ↦ some (put i gone h)
  | some (at a) ↦ elim (release a h) [ none ↦ none | some (last, h') ↦ some (put i gone h') ]
]

-- The end of `operator=`: the object of `rhs` gets a reference.
unfoldable pub take_ref : ℕ → Slot → Heap → Option Heap
unfolding add_ref
take_ref i gone h = none
take_ref i null h = none
take_ref i (at b) h = elim (add_ref b h) [ none ↦ none | some h' ↦ some (put i (at b) h') ]

-- `operator=` once both handles are there, and its test for the same object.
unfoldable pub assign_slot : ℕ → Slot → Slot → Heap → Option Heap
unfolding take_ref release
assign_slot i gone rhs h = none
assign_slot i null gone h = none
assign_slot i null null h = some h
assign_slot i null (at b) h = take_ref i (at b) h
assign_slot i (at a) gone h = none
assign_slot i (at a) null h = none
assign_slot i (at a) (at b) h =
    let next : Option Heap = elim (release a h) [
      | none ↦ none
      | some (last, h') ↦ take_ref i (at b) (if last then put i null h' else h')
    ] in
    if a == b then some h else next

-- `operator=`, from the handle at `j` to that at `i`.
unfoldable pub assign_ptr : ℕ → ℕ → Heap → Option Heap
unfolding assign_slot
assign_ptr i j h = elim (get_elem? h.slots i) [
  | none ↦ none
  | some s ↦ elim (get_elem? h.slots j) [ none ↦ none | some s' ↦ assign_slot i s s' h ]
]

-- `destroyPtr`, which deletes the object whatever its count.
unfoldable pub destroy_ptr : ℕ → Heap → Option Heap
destroy_ptr i h = elim (get_elem? h.slots i) [
  | none ↦ none
  | some gone ↦ none
  | some null ↦ some h
  | some (at a) ↦ elim (h.refs a) [
    | zero ↦ none
    | suc n ↦ some (put i null (record h { refs = update h.refs a 0; freed = a ∷ h.freed }))
  ]
]
