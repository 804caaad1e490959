-- ===== src/EventQueue/Links.antt =====
-- Doubly linked segments, and what a write to a link does to them.
use nf_server.Prelude.{
  ℕ, ◌≡◌, refl, sym, ◌∙◌, ◌≢◌, inl, inr, true, false, List, [], ◌∷◌, ◌++◌, arith, has, Distinct,
  update, update_self, update_ne, update_under, ne_of_has, Bool-cases, ◌==◌, length,
}
use nf_server.Prelude.Int.{ℤ, pos}
use nf_server.EventQueue.{EQueue, null}

abbrev pub head_or : ℕ → List ℕ → ℕ
head_or d [] = d
head_or d (x ∷ xs) = x

abbrev pub last_or : ℕ → List ℕ → ℕ
last_or d [] = d
last_or d (x ∷ xs) = last_or x xs

-- The events `xs` are linked both ways, with `before` in front of the first and `after` behind the
-- last.
abbrev pub Linked : (ℕ → ℕ) → (ℕ → ℕ) → ℕ → List ℕ → ℕ → Type 0
Linked next previous before [] after = Unit {0}
Linked next previous before (x ∷ xs) after =
    (x ≢ null)
    × (previous x ≡ before)
    × (next x ≡ head_or after xs)
    × Linked next previous x xs after

-- The links and ends of the queue hold the events `xs`, first to last, none of them twice.
pub record IsLinked (q : EQueue) (xs : List ℕ) : Type 0 where
  pub linked : Linked q.next q.previous null xs null
  pub first : q.begin ≡ head_or null xs
  pub last : q.end ≡ last_or null xs
  pub distinct : Distinct xs

-- The queue holds the events `xs`, and its count is theirs.
pub record Holds (q : EQueue) (xs : List ℕ) : Type 0 where
  pub links : IsLinked q xs
  pub counted : q.used ≡ pos (length xs)

-- The count is no part of the links.
pub recount :
    {q : EQueue} {xs : List ℕ} (u : ℤ) → IsLinked q xs → IsLinked (record q { used = u }) xs
recount u h = record { linked = h.linked; first = h.first; last = h.last; distinct = h.distinct }

pub frame :
    (n p n' p' : ℕ → ℕ) (before : ℕ) (xs : List ℕ) (after : ℕ)
    → ((a : ℕ) → has a xs ≡ true → n' a ≡ n a)
    → ((a : ℕ) → has a xs ≡ true → p' a ≡ p a)
    → Linked n p before xs after
    → Linked n' p' before xs after
frame n p n' p' before [] after en ep l = tt
frame n p n' p' before (x ∷ xs) after en ep (ne, back, on, l) = (
  ne,
  ep x (ground arith) ∙ back,
  en x (ground arith) ∙ on,
  frame n p n' p' x xs after (λ a h. en a (ground arith)) (λ a h. ep a (ground arith)) l,
)

pub Linked-append :
    (n p : ℕ → ℕ) (before : ℕ) (xs ys : List ℕ) (after : ℕ)
    → Linked n p before xs (head_or after ys)
    → Linked n p (last_or before xs) ys after
    → Linked n p before (xs ++ ys) after
Linked-append n p before [] ys after l r = r
Linked-append n p before (x ∷ []) ys after (ne, back, on, l) r = (ne, back, on, r)
Linked-append n p before (x ∷ y ∷ xs) ys after (ne, back, on, l) r =
    (ne, back, on, Linked-append n p x (y ∷ xs) ys after l r)

pub Linked-split :
    (n p : ℕ → ℕ) (before : ℕ) (xs ys : List ℕ) (after : ℕ)
    → Linked n p before (xs ++ ys) after
    → Linked n p before xs (head_or after ys) × Linked n p (last_or before xs) ys after
Linked-split n p before [] ys after l = (tt, l)
Linked-split n p before (x ∷ []) ys after (ne, back, on, l) = ((ne, back, on, tt), l)
Linked-split n p before (x ∷ y ∷ xs) ys after (ne, back, on, l) =
    let (a, b) = Linked-split n p x (y ∷ xs) ys after l in ((ne, back, on, a), b)

pub has-last_or : (x : ℕ) (xs : List ℕ) → has (last_or x xs) (x ∷ xs) ≡ true
has-last_or x [] = ground arith
has-last_or x (y ∷ xs) = ground (arith, has-last_or y xs)

-- Another event behind the last.
pub relink_last :
    (n p : ℕ → ℕ) (before x : ℕ) (xs : List ℕ) (after v : ℕ)
    → Distinct (x ∷ xs)
    → Linked n p before (x ∷ xs) after
    → Linked (update n (last_or x xs) v) p before (x ∷ xs) v
relink_last n p before x [] after v d (ne, back, on, l) = (ne, back, update_self n x v, tt)
relink_last n p before x (y ∷ xs) after v d (ne, back, on, l) = (
  ne,
  back,
  update_ne n (last_or y xs) v x
        (λ e. ne_of_has (last_or y xs) x (y ∷ xs) (has-last_or y xs) d.0 (sym e))
      ∙ on,
  relink_last n p x y xs after v d.1 l,
)

-- Another event in front of the first.
pub relink_first :
    (n p : ℕ → ℕ) (before x : ℕ) (xs : List ℕ) (after v : ℕ)
    → Distinct (x ∷ xs)
    → Linked n p before (x ∷ xs) after
    → Linked n (update p x v) v (x ∷ xs) after
relink_first n p before x xs after v d (ne, back, on, l) = (
  ne,
  update_self p x v,
  on,
  frame n p n (update p x v) x xs after (λ a h. refl)
      (λ a h. update_ne p x v a (ne_of_has a x xs h d.0)) l,
)

pub last_or-append : (d : ℕ) (xs : List ℕ) (e : ℕ) → last_or d (xs ++ (e ∷ [])) ≡ e
last_or-append d [] e = refl
last_or-append d (x ∷ xs) e = last_or-append x xs e

pub Linked-ne :
    (n p : ℕ → ℕ) (before : ℕ) (xs : List ℕ) (after a : ℕ)
    → Linked n p before xs after
    → has a xs ≡ true
    → a ≢ null
Linked-ne n p before [] after a l h = cc
Linked-ne n p before (x ∷ xs) after a (ne, back, on, l) h = elim (Bool-cases (a == x)) [
  | inl e ↦ let e' : a ≡ x = ground arith in rw e' ne
  | inr other ↦ Linked-ne n p x xs after a l (ground arith)
]

-- One more event behind the last of some.
pub Linked-snoc :
    (n p : ℕ → ℕ) (x : ℕ) (xs : List ℕ) (e : ℕ)
    → Distinct (x ∷ xs)
    → e ≢ null
    → has e (x ∷ xs) ≡ false
    → Linked n p null (x ∷ xs) null
    → Linked
        (update (update n e null) (last_or x xs) e)
        (update p e (last_or x xs))
        null
        ((x ∷ xs) ++ (e ∷ []))
        null
Linked-snoc n p x xs e d ne out l =
    Linked-append _ _ null (x ∷ xs) (e ∷ []) null
      (frame (update n t e) p _ _ null (x ∷ xs) e (λ a h. update_under n e null t e a (not_e a h))
        (λ a h. update_ne p e t a (not_e a h)) (relink_last n p null x xs null e d l))
      (
        ne,
        update_self p e t,
        update_ne (update n e null) t e e (λ z. not_e t (has-last_or x xs) (sym z))
            ∙ update_self n e null,
        tt,
      )
  where
    t : ℕ
    t = last_or x xs

    not_e : (a : ℕ) → has a (x ∷ xs) ≡ true → a ≢ e
    not_e a h = ne_of_has a e (x ∷ xs) h out
