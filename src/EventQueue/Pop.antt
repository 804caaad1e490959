-- ===== src/EventQueue/Pop.antt =====
-- `pop` and `pops` take from the front.
use mathlib.Core.Path.{subst}
use nf_server.Prelude.{
  ℕ, zero, suc, ◌+◌, ◌-◌, ◌≤◌, ◌≡◌, refl, sym, ap, ◌∙◌, ◌≢◌, true, false, List, [], ◌∷◌, arith, has,
  Distinct, update, update_ne, update_under, ne_of_has, ◌==◌, length, take, drop, take-nil,
  drop-nil, length-take-drop, ap₂,
}
use nf_server.Prelude.Int.{ℤ, pos}
use nf_server.EventQueue.{
  EQueue, null, unlink_first, first_has_no_previous, minus, pop, pops, pops_loop,
}
use nf_server.EventQueue.Links.{Linked, IsLinked, Holds, head_or, frame, recount, relink_first}

-- What is left behind the first event.
Linked-rest :
    (n p : ℕ → ℕ) (x y : ℕ) (zs : List ℕ)
    → Distinct (x ∷ y ∷ zs)
    → Linked n p null (x ∷ y ∷ zs) null
    → Linked (update n x null) (update (update p x null) y null) null (y ∷ zs) null
Linked-rest n p x y zs d (_, _, _, l) =
    frame n (update p y null) (update n x null) (update (update p x null) y null) null (y ∷ zs) null
      (λ a h. update_ne n x null a (other a h)) (λ a h. update_under p x null y null a (other a h))
      (relink_first n p x y zs null null d.1 l)
  where
    other : (a : ℕ) → has a (y ∷ zs) ≡ true → a ≢ x
    other a h = ne_of_has a x (y ∷ zs) h d.0

module _ {q : EQueue} {x : ℕ} where
  begin_first :
      {ys : List ℕ}
      → IsLinked q (x ∷ ys)
      → (q.begin ≡ x) × ((q.begin == null) ≡ false) × (q.next q.begin ≡ head_or null ys)
  begin_first h =
      (h.first, ground (arith, h.first, h.linked.0), ap (λ (a : ℕ). q.next a) h.first ∙ h.linked.2)

  unlink_only : IsLinked q (x ∷ []) → IsLinked (record (unlink_first q) { end = null }) []
  unlink_only h = record { linked = tt; first = (begin_first h).2; last = refl; distinct = tt }

  unlink_more :
      {y : ℕ} {zs : List ℕ}
      → IsLinked q (x ∷ y ∷ zs)
      → IsLinked (first_has_no_previous (unlink_first q)) (y ∷ zs)
  unlink_more {y} {zs} h = record {
    linked =
        subst
          (λ (c : ℕ).
            Linked (update q.next q.begin null) (update (update q.previous q.begin null) c null)
              null (y ∷ zs) null)
          (sym (begin_first h).2)
          (subst
            (λ (b : ℕ).
              Linked (update q.next b null) (update (update q.previous b null) y null) null (y ∷ zs)
                null)
            (sym h.first) (Linked-rest q.next q.previous x y zs h.distinct h.linked));
    first = (begin_first h).2;
    last = h.last;
    distinct = h.distinct.1;
  }

  next_null : IsLinked q (x ∷ []) → (q.next q.begin == null) ≡ true
  next_null h = ground (arith, (begin_first h).2)

  next_some : {y : ℕ} {zs : List ℕ} → IsLinked q (x ∷ y ∷ zs) → (q.next q.begin == null) ≡ false
  next_some h = ground (arith, (begin_first h).2, h.linked.3.0)

begin_null : {q : EQueue} → IsLinked q [] → (q.begin == null) ≡ true
begin_null h = ground (arith, h.first)

pop-IsLinked :
    {q : EQueue} (x : ℕ) (xs : List ℕ)
    → IsLinked q (x ∷ xs)
    → ((pop q).0 ≡ x) × IsLinked (pop q).1 xs × ((pop q).1.used ≡ minus q.used 1)
unfolding pop
pop-IsLinked x [] h = rw ((begin_first h).1, next_null h) (h.first, recount _ (unlink_only h), refl)
pop-IsLinked x (y ∷ zs) h =
    rw ((begin_first h).1, next_some h) (h.first, recount _ (unlink_more h), refl)

pop-null : {q : EQueue} → IsLinked q [] → pop q ≡ (null, q)
unfolding pop
pop-null h = rw (begin_null h) refl

-- `pop` gives the first event of a queue and leaves the others, linked and counted; of an empty queue
-- it gives NULL and leaves the queue as it is.
pub pop_lem :
    {q : EQueue} (xs : List ℕ)
    → Holds q xs
    → ((pop q).0 ≡ head_or null xs) × Holds (pop q).1 (drop 1 xs)
pop_lem {q} [] h = rw (pop-null h.links) (refl, h)
pop_lem {q} (x ∷ xs) h =
    let (first, links, count) = pop-IsLinked x xs h.links in
    (first, record { links = links; counted = count ∙ ground (arith, h.counted) })

-- The loop of `pops` at `i`, with `k` rounds left.
pops_loop-IsLinked :
    (k i : ℕ) {q : EQueue} (xs : List ℕ)
    → IsLinked q xs
    → let (n, evs, q') = pops_loop k i q in
      (n ≡ i + length (take k xs))
      × (evs ≡ take k xs)
      × IsLinked q' (drop k xs)
      × (q'.used ≡ minus q.used (i + length (take k xs)))
unfolding pops_loop
pops_loop-IsLinked zero i {q} xs h =
    (omega arith, refl, recount _ h, ap (minus q.used) (omega arith))
pops_loop-IsLinked (suc k) i {q} [] h =
    rw (begin_null h) (omega arith, refl, recount _ h, ap (minus q.used) (omega arith))
pops_loop-IsLinked (suc k) i {q} (x ∷ []) h =
    rw ((begin_first h).1, next_null h, take-nil k, drop-nil k)
      (
        omega arith,
        ap (λ (a : ℕ). a ∷ []) h.first,
        recount _ (unlink_only h),
        ap (minus q.used) (omega arith),
      )
pops_loop-IsLinked (suc k) i {q} (x ∷ y ∷ zs) h =
    let (n, evs, links, count) = pops_loop-IsLinked k (i + 1) (y ∷ zs) (unlink_more h) in
    rw ((begin_first h).1, next_some h)
      (n ∙ omega arith, ap₂ ◌∷◌ h.first evs, links, count ∙ ap (minus q.used) (omega arith))

minus-pos : (m n : ℕ) → n ≤ m → minus (pos m) n ≡ pos (m - n)
minus-pos m n h = ground arith

-- `pops` takes up to `items` events off the front, in their order, returns how many, and leaves the
-- others, linked and counted. With fewer events than that it takes all.
pub pops_lem :
    {q : EQueue} (items : ℕ) (xs : List ℕ)
    → Holds q xs
    → let (n, evs, q') = pops items q in
      (n ≡ length (take items xs)) × (evs ≡ take items xs) × Holds q' (drop items xs)
unfolding pops
pops_lem {q} items xs h =
    let (n, evs, links, count) = pops_loop-IsLinked items 0 xs h.links in
    (
      n ∙ omega arith,
      evs,
      record {
        links = links;
        counted =
            count
            ∙ ap (λ (u : ℤ). minus u (0 + length (take items xs))) h.counted
            ∙ minus-pos (length xs) (0 + length (take items xs))
                (omega (arith, length-take-drop items xs))
            ∙ ap pos (omega (arith, length-take-drop items xs));
      },
    )
