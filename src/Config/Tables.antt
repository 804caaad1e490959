-- ===== src/Config/Tables.antt =====
-- The laws of the tables, and what a sequence of settings leaves in them.
use nf_server.Prelude.{
  ℕ, ◌≡◌, refl, sym, ap, ap₂, ◌∙◌, Bool, true, false, ◌&&◌, Option, none, some, List, [], ◌∷◌,
  arith, ◌==◌, beq_eq, if◌then◌else◌, inl, inr, Bool-cases,
}
use nf_server.Config.{
  Bytes, same, find, put, Section, Sections, get_section, set_item, get, get_item,
}

pub same_self : (xs : Bytes) → same xs xs ≡ true
unfolding same
same_self [] = refl
same_self (x ∷ xs) = rw (beq_eq x x refl) (same_self xs)

and_parts : (a b : Bool) → (a && b) ≡ true → (a ≡ true) × (b ≡ true)
and_parts true b h = (refl, h)
and_parts false b h = (h, absurd (cc))

pub eq_of_same : (xs ys : Bytes) → same xs ys ≡ true → xs ≡ ys
unfolding same
eq_of_same [] [] h = refl
eq_of_same [] (y ∷ ys) h = absurd (cc)
eq_of_same (x ∷ xs) [] h = absurd (cc)
eq_of_same (x ∷ xs) (y ∷ ys) h =
    let both = and_parts (x == y) (same xs ys) h in
    ap₂ (λ (a : ℕ) (l : Bytes). a ∷ l) (ground arith) (eq_of_same xs ys both.1)

same_ne : (a b c : Bytes) → a ≡ c → same b c ≡ false → same a b ≡ false
same_ne a b c p q = elim (Bool-cases (same a b)) [
  | inl t ↦
      let e : b ≡ c = sym (eq_of_same a b t) ∙ p in
      let r : same b c ≡ true = ap (λ (l : Bytes). same b l) (sym e) ∙ same_self b in cc
  | inr f ↦ f
]

module _ {V : Type 0} where
  pub find-put :
      (j k : Bytes) (v : V) (m : List (Bytes × V))
      → find j (put k v m) ≡ (if same j k then some v else find j m)
  unfolding find put
  find-put j k v [] = refl
  find-put j k v ((i, w) ∷ m) = elim (Bool-cases (same k i)) [
    | inl e ↦
        let e' : k ≡ i = eq_of_same k i e in
        rw e (elim (Bool-cases (same j k)) [
          | inl f ↦ rw f refl
          | inr f ↦
              let g : same j i ≡ false = ap (λ (l : Bytes). same j l) (sym e') ∙ f in rw (f, g) refl
        ])
    | inr e ↦ rw e (elim (Bool-cases (same j i)) [
      | inl f ↦
          let f' : j ≡ i = eq_of_same j i f in
          let g : same j k ≡ false = same_ne j k i f' e in rw (f, g) refl
      | inr f ↦ rw f (find-put j k v m)
    ])
  ]

-- A section as it stands in a file: its name and its items.
pub record Block : Type 0 where
  pub name : Bytes
  pub items : List (Bytes × Bytes)

-- The last value of a key among the items, and the last section with a name.
unfoldable pub last_value : Bytes → List (Bytes × Bytes) → Option Bytes
last_value key [] = none
last_value key ((k, v) ∷ r) = elim (last_value key r) [
  | none ↦ if same key k then some v else none
  | some w ↦ some w
]

unfoldable pub last_block : Bytes → List Block → Option Block
last_block name [] = none
last_block name (b ∷ bs) = elim (last_block name bs) [
  | none ↦ if same name b.name then some b else none
  | some c ↦ some c
]

-- The items put into a section, and the settings of a section and of a file.
unfoldable pub fill : List (Bytes × Bytes) → Section → Section
fill [] s = s
fill ((k, v) ∷ r) s = fill r (put k v s)

unfoldable pub load_items : Bytes → List (Bytes × Bytes) → Sections → Sections
unfolding set_item
load_items name [] m = m
load_items name ((k, v) ∷ r) m = load_items name r (set_item name k v m)

unfoldable pub load : List Block → Sections → Sections
load [] m = m
load (b ∷ bs) m = load bs (load_items b.name b.items (put b.name [] m))

abbrev pub or_else {ℓ} : {A : Type ℓ} → Option A → Option A → Option A
or_else none o = o
or_else (some a) o = some a

find-fill :
    (key : Bytes) (r : List (Bytes × Bytes)) (s : Section)
    → find key (fill r s) ≡ or_else (last_value key r) (find key s)
unfolding fill last_value
find-fill key [] s = refl
find-fill key ((k, v) ∷ r) s =
    find-fill key r (put k v s)
    ∙ ap (λ o. or_else (last_value key r) o) (find-put key k v s)
    ∙ join (last_value key r) (same key k)
  where
    join :
        (o : Option Bytes) (t : Bool)
        → or_else o (if t then some v else find key s)
          ≡ or_else
              (elim o as (λ x. Option Bytes) [
                | none ↦ if t then some v else none
                | some w ↦ some w
              ])
              (find key s)
    join none true = refl
    join none false = refl
    join (some w) t = refl

find-put_self : (k : Bytes) (v : Section) (m : Sections) → find k (put k v m) ≡ some v
find-put_self k v m = find-put k k v m ∙ rw (same_self k) refl

find-set_item :
    (n name k v : Bytes) (s : Section) (m : Sections)
    → find name m ≡ some s
    → find n (set_item name k v m) ≡ (if same n name then some (put k v s) else find n m)
unfolding set_item get_section
find-set_item n name k v s m h =
    ap
      (λ (o : Option Section).
        find n (put name (put k v (elim o as (λ x. Section) [ none ↦ [] | some t ↦ t ])) m))
      h
    ∙ find-put n name (put k v s) m

find-load_items :
    (n name : Bytes) (r : List (Bytes × Bytes)) (s : Section) (m : Sections)
    → find name m ≡ some s
    → find n (load_items name r m) ≡ (if same n name then some (fill r s) else find n m)
unfolding load_items fill
find-load_items n name [] s m h = elim (Bool-cases (same n name)) [
  | inl e ↦ rw e (ap (λ (l : Bytes). find l m) (eq_of_same n name e) ∙ h)
  | inr ne ↦ rw ne refl
]
find-load_items n name ((k, v) ∷ r) s m h =
    let here = find-set_item name name k v s m h ∙ rw (same_self name) refl in
    find-load_items n name r (put k v s) (set_item name k v m) here
    ∙ elim (Bool-cases (same n name)) [
      | inl e ↦ rw e refl
      | inr ne ↦ rw ne (find-set_item n name k v s m h ∙ rw ne refl)
    ]

find-load :
    (n : Bytes) (bs : List Block) (m : Sections)
    → find n (load bs m) ≡ elim (last_block n bs) as (λ o. Option Section) [
      | none ↦ find n m
      | some b ↦ some (fill b.items [])
    ]
unfolding load last_block
find-load n [] m = refl
find-load n (b ∷ bs) m =
    find-load n bs (load_items b.name b.items (put b.name [] m))
    ∙ join (last_block n bs)
        (find-load_items n b.name b.items [] (put b.name [] m) (find-put_self b.name [] m))
  where
    join :
        (o : Option Block)
        → find n (load_items b.name b.items (put b.name [] m))
          ≡ (if same n b.name then some (fill b.items []) else find n (put b.name [] m))
        → elim o as (λ x. Option Section) [
          | none ↦ find n (load_items b.name b.items (put b.name [] m))
          | some c ↦ some (fill c.items [])
        ]
          ≡ elim (elim o as (λ x. Option Block) [
            | none ↦ if same n b.name then some b else none
            | some c ↦ some c
          ])
              as (λ x. Option Section) [ none ↦ find n m | some c ↦ some (fill c.items []) ]
    join none e = elim (Bool-cases (same n b.name)) [
      | inl t ↦ e ∙ rw t refl
      | inr f ↦ e ∙ rw f (find-put n b.name [] m ∙ rw f refl)
    ]
    join (some c) e = refl

-- The value that a file gives a key in a section: the last in the last section of the name.
abbrev pub or_empty : Option Bytes → Bytes
or_empty none = []
or_empty (some v) = v

pub value_of : Bytes → Bytes → List Block → Bytes
value_of name key bs = elim (last_block name bs) [
  | none ↦ []
  | some b ↦ or_empty (last_value key b.items)
]

pub get-load :
    (name key : Bytes) (bs : List Block) → get name key (load bs []) ≡ value_of name key bs
unfolding get get_item value_of find
get-load name key bs =
    ap (λ (o : Option Section). elim o as (λ x. Bytes) [ none ↦ [] | some s ↦ get_item key s ])
      (find-load name bs [])
    ∙ join (last_block name bs)
  where
    or_nothing :
        (o : Option Bytes)
        → elim (or_else o none) as (λ x. Bytes) [ none ↦ [] | some v ↦ v ] ≡ or_empty o
    or_nothing none = refl
    or_nothing (some v) = refl

    join :
        (o : Option Block)
        → elim (elim o as (λ x. Option Section) [ none ↦ none | some b ↦ some (fill b.items []) ])
            as (λ x. Bytes) [ none ↦ [] | some s ↦ get_item key s ]
          ≡ elim o as (λ x. Bytes) [ none ↦ [] | some b ↦ or_empty (last_value key b.items) ]
    join none = refl
    join (some b) =
        ap (λ (o : Option Bytes). elim o as (λ x. Bytes) [ none ↦ [] | some v ↦ v ])
          (find-fill key b.items [])
        ∙ or_nothing (last_value key b.items)
