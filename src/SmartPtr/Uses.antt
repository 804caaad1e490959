-- ===== src/SmartPtr/Uses.antt =====
-- A program's handles: none points at an object that is gone, and an object goes with its last handle.
use nf_server.Prelude.{
  ℕ, ◌≡◌, refl, sym, ◌∙◌, subst, Option, some, none, [], some_injective, arith, get_elem?,
}
use nf_server.SmartPtr.{
  Slot, gone, null, at, Heap, put, create, empty, copy, destroy, assign_slot, assign_ptr,
}
use nf_server.SmartPtr.Counts.{count, count-set}
use nf_server.SmartPtr.Safety.{
  IsCounted, held, create-IsCounted, empty-IsCounted, copy_lem, destroy_lem, assign_slot_lem,
}

-- What a program does with handles, as far as it ends.
pub data Uses : Heap → Heap → Type 0 where
  start : {h : Heap} → Uses h h
  created : {h h' : Heap} (a : ℕ) → Uses h h' → h'.refs a ≡ 0 → Uses h (create a h')
  emptied : {h h' : Heap} → Uses h h' → Uses h (empty h')
  copied : {h h' h'' : Heap} (i : ℕ) → Uses h h' → copy i h' ≡ some h'' → Uses h h''
  destroyed : {h h' h'' : Heap} (i : ℕ) → Uses h h' → destroy i h' ≡ some h'' → Uses h h''
  assigned : {h h' h'' : Heap} (i j : ℕ) → Uses h h' → assign_ptr i j h' ≡ some h'' → Uses h h''

-- No object and no handle.
abbrev pub no_objects : Heap
no_objects = record { refs = λ a. 0; freed = []; slots = [] }

nothing : {A : Type 0} {x : Heap} → none ≡ some x → A
nothing e = absurd cc

copy-IsCounted : (h h' : Heap) (i : ℕ) → IsCounted h → copy i h ≡ some h' → IsCounted h'
unfolding copy
copy-IsCounted h h' i c run = join (get_elem? h.slots i) refl
  where
    join : (o : Option Slot) → get_elem? h.slots i ≡ o → IsCounted h'
    join none e = nothing (rw (copy, e) at run)
    join (some gone) e = nothing (rw (copy, e) at run)
    join (some null) e = nothing (rw (copy, e) at run)
    join (some (at a)) e =
        let (h1, run', c', _, _) = copy_lem h a i c e in
        subst (λ h. IsCounted h) (some_injective (sym run' ∙ run)) c'

destroy-IsCounted : (h h' : Heap) (i : ℕ) → IsCounted h → destroy i h ≡ some h' → IsCounted h'
unfolding destroy
destroy-IsCounted h h' i c run = join (get_elem? h.slots i) refl
  where
    join : (o : Option Slot) → get_elem? h.slots i ≡ o → IsCounted h'
    join none e = nothing (rw (destroy, e) at run)
    join (some gone) e = nothing (rw (destroy, e) at run)
    join (some null) e =
        let done : some (put i gone h) ≡ some h' = rw (destroy, e) at run in
        subst (λ h. IsCounted h) (some_injective done)
          (λ x. omega (arith, c x, count-set x h.slots i null gone e))
    join (some (at a)) e =
        let (h1, run', c', _, _) = destroy_lem h a i c e in
        subst (λ h. IsCounted h) (some_injective (sym run' ∙ run)) c'

assign_slot-IsCounted :
    (h h' : Heap) (i j : ℕ) (s s' : Slot)
    → IsCounted h
    → get_elem? h.slots i ≡ some s
    → get_elem? h.slots j ≡ some s'
    → assign_slot i s s' h ≡ some h'
    → IsCounted h'
unfolding assign_slot
assign_slot-IsCounted h h' i j gone s' c e e' run = nothing run
assign_slot-IsCounted h h' i j null gone c e e' run = nothing run
assign_slot-IsCounted h h' i j null null c e e' run =
    subst (λ h. IsCounted h) (some_injective run) c
assign_slot-IsCounted h h' i j null (at b) c e e' run =
    let (h1, run', c', _) = assign_slot_lem h b i null c e (λ same. cc) (held h b j c e') in
    subst (λ h. IsCounted h) (some_injective (sym run' ∙ run)) c'
assign_slot-IsCounted h h' i j (at a) gone c e e' run = nothing run
assign_slot-IsCounted h h' i j (at a) null c e e' run = nothing run
assign_slot-IsCounted h h' i j (at a) (at b) c e e' run =
    let (h1, run', c', _) = assign_slot_lem h b i (at a) c e (λ same. cc) (held h b j c e') in
    subst (λ h. IsCounted h) (some_injective (sym run' ∙ run)) c'

assign_ptr-IsCounted :
    (h h' : Heap) (i j : ℕ) → IsCounted h → assign_ptr i j h ≡ some h' → IsCounted h'
unfolding assign_ptr
assign_ptr-IsCounted h h' i j c run = join (get_elem? h.slots i) (get_elem? h.slots j) refl refl
  where
    join : (o o' : Option Slot) → get_elem? h.slots i ≡ o → get_elem? h.slots j ≡ o' → IsCounted h'
    join none o' e e' = nothing (rw (assign_ptr, e) at run)
    join (some s) none e e' = nothing (rw (assign_ptr, e, e') at run)
    join (some s) (some s') e e' =
        assign_slot-IsCounted h h' i j s s' c e e' (rw (assign_ptr, e, e') at run)

-- A program that makes objects at free addresses and makes, copies, assigns and destroys handles, but
-- does not use `destroyPtr`, in any order: after each step that ends, the count of each object, 0 where
-- there is none, is the number of the handles at its address. So a handle never points at an object that
-- is gone, and an object without handles is gone.
pub uses-IsCounted : {h : Heap} → Uses no_objects h → IsCounted h
unfolding count
uses-IsCounted start = λ x. refl
uses-IsCounted (created {h' = h} a u free) = create-IsCounted h a (uses-IsCounted u) free
uses-IsCounted (emptied {h' = h} u) = empty-IsCounted h (uses-IsCounted u)
uses-IsCounted (copied {h' = h} {h'' = h'} i u e) = copy-IsCounted h h' i (uses-IsCounted u) e
uses-IsCounted (destroyed {h' = h} {h'' = h'} i u e) = destroy-IsCounted h h' i (uses-IsCounted u) e
uses-IsCounted (assigned {h' = h} {h'' = h'} i j u e) =
    assign_ptr-IsCounted h h' i j (uses-IsCounted u) e
