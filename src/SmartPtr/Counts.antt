-- ===== src/SmartPtr/Counts.antt =====
-- The count of an object is the number of the handles that point at it.
use nf_server.Prelude.{
  ℕ, zero, suc, ◌+◌, ◌<◌, ◌≡◌, ◌≢◌, refl, sym, ap, inl, inr, Bool, true, false, Bool-cases, Option,
  some, none, List, [], ◌∷◌, some_injective, ◌++◌, ◌==◌, if◌then◌else◌, arith, beq_eq, beq_ne,
  get_elem?, set,
}
use nf_server.SmartPtr.{Slot, gone, null, at, Heap, update, add_ref, release, release_at}

abbrev pub hit : ℕ → Slot → ℕ
hit a gone = 0
hit a null = 0
hit a (at b) = if b == a then 1 else 0

-- The handles at the object at an address.
unfoldable pub count : ℕ → List Slot → ℕ
count a [] = 0
count a (s ∷ ss) = hit a s + count a ss

pub count-append :
    (a : ℕ) (ss : List Slot) (s : Slot) → count a (ss ++ (s ∷ [])) ≡ count a ss + hit a s
unfolding count
count-append a [] s = omega arith
count-append a (s' ∷ ss) s = omega (arith, count-append a ss s)

pub count-set :
    (a : ℕ) (ss : List Slot) (i : ℕ) (s s' : Slot)
    → get_elem? ss i ≡ some s
    → count a (set ss i s') + hit a s ≡ count a ss + hit a s'
unfolding count
count-set a [] i s s' e = absurd cc
count-set a (t ∷ ss) zero s s' e =
    let same : hit a t ≡ hit a s = ap (hit a) (some_injective e) in omega (arith, same)
count-set a (t ∷ ss) (suc i) s s' e = omega (arith, count-set a ss i s s' e)

pub hit_self : (a : ℕ) → hit a (at a) ≡ 1
hit_self a = rw (beq_eq a a refl) refl

pub count-positive :
    (a : ℕ) (ss : List Slot) (i : ℕ) → get_elem? ss i ≡ some (at a) → 0 < count a ss
count-positive a ss i e = omega (arith, count-set a ss i (at a) null e, hit_self a)

-- A reference more.
pub update_more : (f : ℕ → ℕ) (a n x : ℕ) → f a ≡ n → update f a (n + 1) x ≡ f x + hit x (at a)
update_more f a n x e = elim (Bool-cases (x == a)) [
  | inl same ↦
      let eq : x ≡ a = ground arith in rw (same, beq_eq a x (sym eq)) (omega (arith, e, ap f eq))
  | inr other ↦
      let apart : a ≢ x = λ eq. absurd (ground (arith, eq)) in
      rw (other, beq_ne a x apart) (omega arith)
]

-- A reference less.
update_less : (f : ℕ → ℕ) (a n x : ℕ) → f a ≡ suc n → update f a n x + hit x (at a) ≡ f x
update_less f a n x e = elim (Bool-cases (x == a)) [
  | inl same ↦
      let eq : x ≡ a = ground arith in rw (same, beq_eq a x (sym eq)) (omega (arith, e, ap f eq))
  | inr other ↦
      let apart : a ≢ x = λ eq. absurd (ground (arith, eq)) in
      rw (other, beq_ne a x apart) (omega arith)
]

pub add_ref_lem :
    (a : ℕ) (h : Heap)
    → 0 < h.refs a
    → (r : ℕ → ℕ) × (add_ref a h ≡ some (record h { refs = r }))
      × ((x : ℕ) → r x ≡ h.refs x + hit x (at a))
unfolding add_ref
add_ref_lem a h pos = join (h.refs a) refl pos
  where
    join :
        (n : ℕ)
        → h.refs a ≡ n
        → 0 < n
        → (r : ℕ → ℕ) × ((elim n as (λ x. Option Heap) [
          | zero ↦ none
          | suc n ↦ some (record h { refs = update h.refs a (suc n + 1) })
        ])
            ≡ some (record h { refs = r }))
          × ((x : ℕ) → r x ≡ h.refs x + hit x (at a))
    join zero e pos = absurd (omega arith)
    join (suc n) e pos = (update h.refs a (suc n + 1), refl, λ x. update_more h.refs a (suc n) x e)

-- The object is deleted with its last reference.
abbrev pub freed_by : ℕ → Heap → List ℕ
freed_by a h = if h.refs a == 1 then a ∷ h.freed else h.freed

pub release_lem :
    (a : ℕ) (h : Heap)
    → 0 < h.refs a
    → (last : Bool) × (r : ℕ → ℕ) × (release a h
        ≡ some (last, record h { refs = r; freed = freed_by a h }))
      × ((x : ℕ) → r x + hit x (at a) ≡ h.refs x)
unfolding release release_at
release_lem a h pos = join (h.refs a) refl pos
  where
    join :
        (n : ℕ)
        → h.refs a ≡ n
        → 0 < n
        → (last : Bool) × (r : ℕ → ℕ) × ((elim n as (λ x. Option (Bool × Heap)) [
          | zero ↦ none
          | suc n ↦ some (release_at a n h)
        ])
            ≡ some (last, record h { refs = r; freed = if n == 1 then a ∷ h.freed else h.freed }))
          × ((x : ℕ) → r x + hit x (at a) ≡ h.refs x)
    join zero e pos = absurd (omega arith)
    join (suc zero) e pos = (true, update h.refs a 0, refl, λ x. update_less h.refs a 0 x e)
    join (suc (suc n)) e pos = (
      false,
      update h.refs a (suc n),
      rw (beq_ne (suc (suc n)) 1 (λ same. absurd (omega (arith, same)))) refl,
      λ x. update_less h.refs a (suc n) x e,
    )
