-- ===== src/EventQueue/Erase.antt =====
-- `erase` takes one event out, wherever it stands.
use mathlib.Core.Path.{subst}
use nf_server.Prelude.{
  ℕ, has-append, ◌≡◌, refl, sym, ap, ◌∙◌, ◌≢◌, true, false, List, [], ◌∷◌, ◌++◌, arith, has,
  Distinct, update, update_ne, ne_of_has, beq_ne, beq_eq, not_has, ◌==◌, length-append, append-nil,
}
use nf_server.EventQueue.{
  EQueue, null, unlinked, erase_first, erase_last, erase_between, erase, minus,
}
use nf_server.EventQueue.Links.{
  Linked, IsLinked, Holds, last_or, frame, relink_first, relink_last, Linked-append, Linked-split,
  Linked-ne, has-last_or, last_or-append,
}

Distinct-append :
    (xs ys : List ℕ)
    → Distinct (xs ++ ys)
    → Distinct xs × Distinct ys × ((c : ℕ) → has c xs ≡ true → has c ys ≡ false)
Distinct-append [] ys d = (tt, d, λ c h. cc)
Distinct-append (x ∷ xs) ys (out, d) =
    let (dx, dy, apart) = Distinct-append xs ys d in
    (
      (ground (arith, has-append x xs ys), dx),
      dy,
      λ c h. ground (arith, has-append x xs ys, apart c),
    )

Distinct-drop :
    (xs : List ℕ) (e : ℕ) (ys : List ℕ)
    → Distinct (xs ++ (e ∷ ys))
    → Distinct (xs ++ ys) × (has e (xs ++ ys) ≡ false)
Distinct-drop [] e ys d = (d.1, d.0)
Distinct-drop (x ∷ xs) e ys (out, d) =
    let (d', none) = Distinct-drop xs e ys d in
    (
      (ground (arith, has-append x xs ys, has-append x xs (e ∷ ys)), d'),
      ground (arith, has-append x xs (e ∷ ys)),
    )

last_or-cons :
    (d : ℕ) (xs : List ℕ) (y : ℕ) (ys : List ℕ) → last_or d (xs ++ (y ∷ ys)) ≡ last_or y ys
last_or-cons d [] y ys = refl
last_or-cons d (x ∷ xs) y ys = last_or-cons x xs y ys

-- Clearing the links of an event that is not in the queue.
unlinked-IsLinked :
    {q : EQueue} (e : ℕ) (xs : List ℕ)
    → has e xs ≡ false
    → IsLinked q xs
    → IsLinked (unlinked e q) xs
unlinked-IsLinked {q} e xs out h = record {
  linked =
      frame q.next q.previous _ _ null xs null
        (λ a m. update_ne q.next e null a (ne_of_has a e xs m out))
        (λ a m. update_ne q.previous e null a (ne_of_has a e xs m out)) h.linked;
  first = h.first;
  last = h.last;
  distinct = h.distinct;
}

erase_first-IsLinked :
    {q : EQueue} (e : ℕ) (ys : List ℕ) → IsLinked q (e ∷ ys) → IsLinked (erase_first q) ys
erase_first-IsLinked {q} e [] h =
    rw is_null (record { linked = tt; first = on; last = refl; distinct = tt })
  where
    on : q.next q.begin ≡ null
    on = ap (λ (a : ℕ). q.next a) h.first ∙ h.linked.2

    is_null : (q.next q.begin == null) ≡ true
    is_null = ground arith
erase_first-IsLinked {q} e (y ∷ zs) h = rw not_null (record {
  linked =
      subst (λ (c : ℕ). Linked q.next (update q.previous c null) null (y ∷ zs) null) (sym on)
        (relink_first q.next q.previous e y zs null null h.distinct.1 h.linked.3);
  first = on;
  last = h.last;
  distinct = h.distinct.1;
})
  where
    on : q.next q.begin ≡ y
    on = ap (λ (a : ℕ). q.next a) h.first ∙ h.linked.2

    not_null : (q.next q.begin == null) ≡ false
    not_null = ground (arith, h.linked.3.0)

erase_last-IsLinked :
    {q : EQueue} (x : ℕ) (xs : List ℕ) (e : ℕ)
    → IsLinked q ((x ∷ xs) ++ (e ∷ []))
    → IsLinked (erase_last q) (x ∷ xs)
erase_last-IsLinked {q} x xs e h = rw not_null (record {
  linked =
      subst (λ (c : ℕ). Linked (update q.next c null) q.previous null (x ∷ xs) null) (sym back)
        (relink_last q.next q.previous null x xs e null d.0 parts.0);
  first = h.first;
  last = back;
  distinct = d.0;
})
  where
    parts :
        Linked q.next q.previous null (x ∷ xs) e
        × Linked q.next q.previous (last_or x xs) (e ∷ []) null
    parts = Linked-split q.next q.previous null (x ∷ xs) (e ∷ []) null h.linked

    d :
        Distinct (x ∷ xs)
        × Distinct (e ∷ [])
        × ((c : ℕ) → has c (x ∷ xs) ≡ true → has c (e ∷ []) ≡ false)
    d = Distinct-append (x ∷ xs) (e ∷ []) h.distinct

    back : q.previous q.end ≡ last_or x xs
    back = ap (λ (a : ℕ). q.previous a) (h.last ∙ last_or-append x xs e) ∙ parts.1.1

    not_null : (q.previous q.end == null) ≡ false
    not_null = ground (
      arith,
      back,
      Linked-ne q.next q.previous null (x ∷ xs) e (last_or x xs) parts.0 (has-last_or x xs),
    )

-- The events on both sides of one, linked past it.
Linked-between :
    (n p : ℕ → ℕ) (x : ℕ) (xs : List ℕ) (e y : ℕ) (ys : List ℕ)
    → Distinct ((x ∷ xs) ++ (e ∷ y ∷ ys))
    → Linked n p null (x ∷ xs) e
    → Linked n p e (y ∷ ys) null
    → Linked
        (update n (last_or x xs) y)
        (update p y (last_or x xs))
        null
        ((x ∷ xs) ++ (y ∷ ys))
        null
Linked-between n p x xs e y ys d l r =
    Linked-append _ _ null (x ∷ xs) (y ∷ ys) null
      (frame (update n t y) p _ _ null (x ∷ xs) y (λ a h. refl)
        (λ a h.
          update_ne p y t a (λ z. ne_of_has y a (e ∷ y ∷ ys) (ground arith) (parts.2 a h) (sym z)))
        (relink_last n p null x xs e y parts.0 l))
      (frame n (update p y t) _ _ t (y ∷ ys) null
        (λ a h.
          update_ne n t y a
            (ne_of_has a t (e ∷ y ∷ ys) (ground arith) (parts.2 t (has-last_or x xs))))
        (λ a h. refl) (relink_first n p e y ys null t parts.1.1 r))
  where
    t : ℕ
    t = last_or x xs

    parts :
        Distinct (x ∷ xs)
        × Distinct (e ∷ y ∷ ys)
        × ((c : ℕ) → has c (x ∷ xs) ≡ true → has c (e ∷ y ∷ ys) ≡ false)
    parts = Distinct-append (x ∷ xs) (e ∷ y ∷ ys) d

erase_between-IsLinked :
    {q : EQueue} (x : ℕ) (xs : List ℕ) (e y : ℕ) (ys : List ℕ)
    → IsLinked q ((x ∷ xs) ++ (e ∷ y ∷ ys))
    → IsLinked (erase_between e q) ((x ∷ xs) ++ (y ∷ ys))
erase_between-IsLinked {q} x xs e y ys h = record {
  linked =
      subst
        (λ (c : ℕ). Linked (update n (p e) (n e)) (update p c (p e)) null (xs' ++ (y ∷ ys)) null)
        (sym (update_ne n (p e) (n e) e not_back ∙ on))
        (subst (λ (c : ℕ). Linked (update n (p e) c) (update p y (p e)) null (xs' ++ (y ∷ ys)) null)
          (sym on)
          (subst (λ (c : ℕ). Linked (update n c y) (update p y c) null (xs' ++ (y ∷ ys)) null)
            (sym back) (Linked-between n p x xs e y ys h.distinct parts.0 parts.1.3)));
  first = h.first;
  last = h.last ∙ last_or-cons x xs e (y ∷ ys) ∙ sym (last_or-cons x xs y ys);
  distinct = (Distinct-drop (x ∷ xs) e (y ∷ ys) h.distinct).0;
}
  where
    n : ℕ → ℕ
    n = q.next

    p : ℕ → ℕ
    p = q.previous

    xs' : List ℕ
    xs' = x ∷ xs

    parts : Linked n p null xs' e × Linked n p (last_or x xs) (e ∷ y ∷ ys) null
    parts = Linked-split n p null xs' (e ∷ y ∷ ys) null h.linked

    back : p e ≡ last_or x xs
    back = parts.1.1

    on : n e ≡ y
    on = parts.1.2

    not_back : e ≢ p e
    not_back z =
        ne_of_has (last_or x xs) e xs' (has-last_or x xs) (not_has e xs' (λ m. disjoint m))
          (sym (z ∙ back))
      where
        disjoint : has e xs' ≡ true → ⊥
        disjoint m = let apart = (Distinct-append xs' (e ∷ y ∷ ys) h.distinct).2 e m in ground arith

first_ne : (x : ℕ) (xs : List ℕ) (e : ℕ) (ys : List ℕ) → Distinct ((x ∷ xs) ++ (e ∷ ys)) → x ≢ e
first_ne x xs e ys d z = ground (arith, d.0, has-append x xs (e ∷ ys))

member_ne :
    {q : EQueue} (xs : List ℕ) (e : ℕ) (ys : List ℕ) → IsLinked q (xs ++ (e ∷ ys)) → e ≢ null
member_ne {q} xs e ys h = (Linked-split q.next q.previous null xs (e ∷ ys) null h.linked).1.0

erase-IsLinked :
    {q : EQueue} (xs : List ℕ) (e : ℕ) (ys : List ℕ)
    → IsLinked q (xs ++ (e ∷ ys))
    → IsLinked (erase e q) (xs ++ ys) × ((erase e q).used ≡ minus q.used 1)
unfolding erase
erase-IsLinked [] e ys h =
    rw (beq_ne e null h.linked.0, beq_eq e _ (sym h.first))
      (unlinked-IsLinked e ys h.distinct.0 (erase_first-IsLinked e ys h), ground arith)
erase-IsLinked {q} (x ∷ xs) e [] h =
    rw (beq_ne e null (member_ne (x ∷ xs) e [] h), beq_ne e _ not_first, beq_eq e _ (sym last))
      (
        unlinked-IsLinked {q = erase_last q} e ((x ∷ xs) ++ [])
            (Distinct-drop (x ∷ xs) e [] h.distinct).1
            (rw append-nil (erase_last-IsLinked x xs e h)),
        ground arith,
      )
  where
    not_first : e ≢ q.begin
    not_first z = first_ne x xs e [] h.distinct (sym (z ∙ h.first))

    last : q.end ≡ e
    last = h.last ∙ last_or-append x xs e
erase-IsLinked {q} (x ∷ xs) e (y ∷ ys) h =
    rw (beq_ne e null (member_ne (x ∷ xs) e (y ∷ ys) h), beq_ne e _ not_first, beq_ne e _ not_last)
      (
        unlinked-IsLinked e ((x ∷ xs) ++ (y ∷ ys)) (Distinct-drop (x ∷ xs) e (y ∷ ys) h.distinct).1
            (erase_between-IsLinked x xs e y ys h),
        refl,
      )
  where
    not_first : e ≢ q.begin
    not_first z = first_ne x xs e (y ∷ ys) h.distinct (sym (z ∙ h.first))

    not_last : e ≢ q.end
    not_last z =
        ne_of_has (last_or y ys) e (y ∷ ys) (has-last_or y ys)
          ((Distinct-append (x ∷ xs) (e ∷ y ∷ ys) h.distinct).1.0)
          (sym (z ∙ h.last ∙ last_or-cons x xs e (y ∷ ys)))

-- `erase` of an event that is in the queue, at any place, leaves the others in their order, linked and
-- counted.
pub erase_lem :
    {q : EQueue} (xs : List ℕ) (e : ℕ) (ys : List ℕ)
    → Holds q (xs ++ (e ∷ ys))
    → Holds (erase e q) (xs ++ ys)
erase_lem xs e ys h = record {
  links = (erase-IsLinked xs e ys h.links).0;
  counted =
      (erase-IsLinked xs e ys h.links).1
      ∙ ground (arith, h.counted, length-append xs (e ∷ ys), length-append xs ys);
}
