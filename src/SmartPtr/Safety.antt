-- ===== src/SmartPtr/Safety.antt =====
-- Each operation on handles keeps the counts right and accesses no object that is gone.
use nf_server.Prelude.{
  ℕ, ◌+◌, ◌<◌, ◌≡◌, ◌≢◌, refl, ap, ◌∙◌, inl, inr, Bool-cases, Option, some, [], ◌∷◌, ◌++◌, ◌==◌,
  if◌then◌else◌, arith, beq_ne, get_elem?, get_elem?-set_self, set,
}
use nf_server.SmartPtr.{
  Slot, gone, null, at, Heap, put, append, create, empty, copy, destroy, take_ref, assign_slot,
  assign_ptr,
}
use nf_server.SmartPtr.Counts.{
  hit, hit_self, count, count-append, count-set, count-positive, add_ref_lem, release_lem, freed_by,
  update_more,
}

-- The count of each object is the number of the handles at it.
abbrev pub IsCounted : Heap → Type 0
IsCounted h = (x : ℕ) → h.refs x ≡ count x h.slots

pub held : (h : Heap) (a i : ℕ) → IsCounted h → get_elem? h.slots i ≡ some (at a) → 0 < h.refs a
held h a i c e = omega (arith, c a, count-positive a h.slots i e)

pub create-IsCounted : (h : Heap) (a : ℕ) → IsCounted h → h.refs a ≡ 0 → IsCounted (create a h)
unfolding create
create-IsCounted h a c free x =
    omega (arith, update_more h.refs a 0 x free, c x, count-append x h.slots (at a))

pub empty-IsCounted : (h : Heap) → IsCounted h → IsCounted (empty h)
unfolding empty
empty-IsCounted h c x = omega (arith, c x, count-append x h.slots null)

-- Copying a handle at an object succeeds: it does not follow a pointer to an object that is gone.
pub copy_lem :
    (h : Heap) (a i : ℕ)
    → IsCounted h
    → get_elem? h.slots i ≡ some (at a)
    → (h' : Heap) × (copy i h ≡ some h')
      × IsCounted h'
      × (h'.slots ≡ h.slots ++ (at a ∷ []))
      × (h'.freed ≡ h.freed)
unfolding copy
copy_lem h a i c e =
    let (r, run, more) = add_ref_lem a h (held h a i c e) in
    (
      append (at a) (record h { refs = r }),
      rw (copy, e, run) refl,
      λ x. omega (arith, more x, c x, count-append x h.slots (at a)),
      refl,
      refl,
    )

pub destroy_lem :
    (h : Heap) (a i : ℕ)
    → IsCounted h
    → get_elem? h.slots i ≡ some (at a)
    → (h' : Heap) × (destroy i h ≡ some h')
      × IsCounted h'
      × (h'.slots ≡ set h.slots i gone)
      × (h'.freed ≡ (if count a h'.slots == 0 then a ∷ h.freed else h.freed))
unfolding destroy
destroy_lem h a i c e =
    let (last, r, run, less) = release_lem a h (held h a i c e) in
    (
      put i gone (record h { refs = r; freed = freed_by a h }),
      rw (destroy, e, run) refl,
      λ x. omega (arith, less x, c x, count-set x h.slots i (at a) gone e),
      refl,
      ap (λ t. if t then a ∷ h.freed else h.freed)
          (ground (arith, count-set a h.slots i (at a) gone e, hit_self a, c a)),
    )

-- `operator=` once the old object was released: `s` is what the handle was.
take_ref_lem :
    (h : Heap) (i b : ℕ) (s : Slot)
    → get_elem? h.slots i ≡ some s
    → ((x : ℕ) → h.refs x + hit x s ≡ count x h.slots)
    → 0 < h.refs b
    → (h' : Heap) × (take_ref i (at b) h ≡ some h')
      × IsCounted h'
      × (get_elem? h'.slots i ≡ some (at b))
unfolding take_ref
take_ref_lem h i b s e c pos =
    let (r, run, more) = add_ref_lem b h pos in
    (
      put i (at b) (record h { refs = r }),
      rw (take_ref, run) refl,
      λ x. omega (arith, more x, c x, count-set x h.slots i s (at b) e),
      get_elem?-set_self h.slots i s (at b) e,
    )

-- The outcome of an assignment from a handle at `b`.
abbrev pub Assigned : ℕ → ℕ → Heap → Option Heap → Type 0
Assigned i b h o = (h' : Heap) × (o ≡ some h') × IsCounted h' × (get_elem? h'.slots i ≡ some (at b))

replace_lem :
    (h : Heap) (a b i : ℕ)
    → IsCounted h
    → get_elem? h.slots i ≡ some (at a)
    → a ≢ b
    → 0 < h.refs b
    → Assigned i b h (assign_slot i (at a) (at b) h)
unfolding assign_slot
replace_lem h a b i c e apart pos =
    let (last, r, run, less) = release_lem a h (held h a i c e) in
    let left : 0 < r b = omega (arith, less b, pos, rw (beq_ne a b apart) at (less b)) in
    let h1 : Heap = record h { refs = r; freed = freed_by a h } in
    elim (Bool-cases last) [
      | inl gone_now ↦
          rw (assign_slot, beq_ne a b apart, run, gone_now)
            (take_ref_lem (put i null h1) i b null (get_elem?-set_self h.slots i (at a) null e)
              (λ x. omega (arith, less x, c x, count-set x h.slots i (at a) null e)) left)
      | inr stays ↦
          rw (assign_slot, beq_ne a b apart, run, stays)
            (take_ref_lem h1 i b (at a) e (λ x. omega (arith, less x, c x)) left)
    ]

pub assign_slot_lem :
    (h : Heap) (b i : ℕ) (s : Slot)
    → IsCounted h
    → get_elem? h.slots i ≡ some s
    → s ≢ gone
    → 0 < h.refs b
    → Assigned i b h (assign_slot i s (at b) h)
unfolding assign_slot
assign_slot_lem h b i gone c e live pos = absurd (live refl)
assign_slot_lem h b i null c e live pos = take_ref_lem h i b null e (λ x. omega (arith, c x)) pos
assign_slot_lem h b i (at a) c e live pos = elim (Bool-cases (a == b)) [
  | inl same ↦
      let eq : a ≡ b = ground arith in
      rw (assign_slot, same) (h, refl, c, e ∙ ap (λ k. some (at k)) eq)
  | inr other ↦ replace_lem h a b i c e (λ eq. absurd (ground (arith, eq))) pos
]

-- Where each count is the number of the handles at the object, `operator=` to a handle that is NULL or
-- at an object, from one at an object, the same or another, ends: no object is accessed that was
-- deleted. The handle is then at the other's object, and each count is right.
assign_ptr_lem :
    (h : Heap) (b i j : ℕ) (s : Slot)
    → IsCounted h
    → get_elem? h.slots i ≡ some s
    → s ≢ gone
    → get_elem? h.slots j ≡ some (at b)
    → (h' : Heap) × (assign_ptr i j h ≡ some h')
      × IsCounted h'
      × (get_elem? h'.slots i ≡ some (at b))
unfolding assign_ptr
assign_ptr_lem h b i j s c e live e' =
    rw (assign_ptr, e, e') (assign_slot_lem h b i s c e live (held h b j c e'))
