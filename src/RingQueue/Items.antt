-- ===== src/RingQueue/Items.antt =====
-- The values in the slots of a circular block, oldest first, and how a write or a step of `front`
-- changes them.
use nf_server.Prelude.{
  ℕ, zero, suc, ◌+◌, ◌-◌, ◌%◌, ◌≤◌, ◌<◌, ◌≡◌, refl, sym, ap, ap₂, ◌∙◌, ◌≢◌, inl, inr, List, [], ◌∷◌,
  ◌++◌, arith, tests, ltb, Bool-cases, length, length-append, get_or, set, get_or-set_self,
  get_or-set_ne,
}
use native.Mathlib.Nat.{mod-eq_of_lt, mod-eq-sub-mod, mod-add-mod}
use nf_server.RingQueue.Inv.{slot, slot-lt, slot-slot}

unfoldable pub items : ℕ → List ℕ → ℕ → ℕ → List ℕ
items n xs front zero = []
items n xs front (suc m) = items n xs front m ++ (get_or xs (slot n front m) 0 ∷ [])

pub length-items : (n : ℕ) (xs : List ℕ) (front m : ℕ) → length (items n xs front m) ≡ m
unfolding items
length-items n xs front zero = refl
length-items n xs front (suc m) = omega (
  arith,
  length-append (items n xs front m) (get_or xs (slot n front m) 0 ∷ []),
  length-items n xs front m,
)

-- Fewer than `n` steps from a slot do not come back to it.
add-mod-ne : (n h k : ℕ) → h < n → 0 < k → k < n → (h + k) % n ≢ h
add-mod-ne n h k hh pk hk = elim (Bool-cases (ltb (h + k) n)) [
  | inl small ↦ omega (tests, mod-eq_of_lt {n = h + k} {m = n} (omega tests))
  | inr large ↦
      let past : n ≤ h + k = ground arith in
      omega (arith, mod-eq-sub-mod past, mod-eq_of_lt {n = h + k - n} {m = n} (omega arith))
]

slot-ne : (n front i k : ℕ) → 2 ≤ n → 0 < k → k < n → slot n front (i + k) ≢ slot n front i
slot-ne n front i k room pk hk e =
    add-mod-ne n (slot n front i) k (slot-lt n front i room) pk hk (same ∙ e)
  where
    same : (slot n front i + k) % n ≡ slot n front (i + k)
    same = mod-add-mod (front + 1 + i) n k ∙ ap (λ (j : ℕ). j % n) (omega arith)

-- A write to a slot behind the first `m` leaves them alone.
items-set_ne :
    (n : ℕ) (xs : List ℕ) (front m j v : ℕ)
    → 2 ≤ n
    → m ≤ j
    → j < n
    → items n (set xs (slot n front j) v) front m ≡ items n xs front m
unfolding items
items-set_ne n xs front zero j v room le lt = refl
items-set_ne n xs front (suc m) j v room le lt =
    ap₂ (λ (t : List ℕ) (x : ℕ). t ++ (x ∷ []))
      (items-set_ne n xs front m j v room (omega arith) lt)
      (get_or-set_ne xs (slot n front j) (slot n front m) v 0 ne)
  where
    ne : slot n front j ≢ slot n front m
    ne e =
        slot-ne n front m (j - m) room (omega arith) (omega arith)
          (ap (λ (k : ℕ). slot n front k) (omega arith) ∙ e)

-- A write to the slot behind the newest value appends it.
pub items-set :
    (n : ℕ) (xs : List ℕ) (front m v : ℕ)
    → 2 ≤ n
    → length xs ≡ n
    → m < n
    → items n (set xs (slot n front m) v) front (suc m) ≡ items n xs front m ++ (v ∷ [])
unfolding items
items-set n xs front m v room len lt =
    ap₂ (λ (t : List ℕ) (x : ℕ). t ++ (x ∷ []))
      (items-set_ne n xs front m m v room (omega arith) lt)
      (get_or-set_self xs (slot n front m) v 0 (omega (arith, slot-lt n front m room)))

-- The oldest value stands one slot behind `front`; the others are those behind it.
pub items-cons :
    (n : ℕ) (xs : List ℕ) (front m : ℕ)
    → items n xs front (suc m) ≡ get_or xs (slot n front 0) 0 ∷ items n xs (slot n front 0) m
unfolding items
items-cons n xs front zero = refl
items-cons n xs front (suc m) =
    ap₂ (λ (t : List ℕ) (x : ℕ). t ++ (x ∷ [])) (items-cons n xs front m)
      (ap (λ (k : ℕ). get_or xs k 0)
        (ap (λ (k : ℕ). slot n front k) (omega arith) ∙ sym (slot-slot n front m)))
