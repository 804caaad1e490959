-- ===== src/Singleton/Same.antt =====
-- Every call of `instance` returns the one object.
use nf_server.Prelude.{
  ℕ, ◌≡◌, refl, sym, ap, ◌∙◌, subst, Bool, true, false, Bool-cases, inl, inr, Option, none, some,
  List, [], ◌∷◌, ◌++◌, get_elem?, set, if◌then◌else◌, total-set, length, arith, some_injective,
  get_elem?-set_inv, get_elem?-append_inv,
}
use nf_server.Singleton.{
  Place, at_first, at_lock, at_second, at_new, at_flag, at_unlock, at_return, returned, Singleton,
  put, instance_at, Step, calls, works, destroys, Steps, none_yet, and_then, unused,
}
use nf_server.Singleton.Once.{
  IsLocked, Step-IsLocked, unused-IsLocked, instance_at-IsLocked, not_initialized, total-le,
  is_making,
}

abbrev first : List ℕ → Option ℕ
first [] = none
first (a ∷ rest) = some a

-- What a thread has at its place, with `_initialized` and `_instance`.
abbrev Has : Bool → Option ℕ → Place → Type 0
Has init ptr at_first = Unit {0}
Has init ptr at_lock = Unit {0}
Has init ptr at_second = Unit {0}
Has init ptr at_new = Unit {0}
Has init ptr at_flag = Unit {0}
Has init ptr at_unlock = init ≡ true
Has init ptr at_return = init ≡ true
Has init ptr (returned v) = (init ≡ true) × (v ≡ ptr)

-- A thread keeps what it has where `_initialized` stays set, and `_instance` is kept once it is set.
Has-later :
    (init init' : Bool) (ptr ptr' : Option ℕ) (p : Place)
    → (init ≡ true → (init' ≡ true) × (ptr' ≡ ptr))
    → Has init ptr p
    → Has init' ptr' p
Has-later init init' ptr ptr' at_first later h = tt
Has-later init init' ptr ptr' at_lock later h = tt
Has-later init init' ptr ptr' at_second later h = tt
Has-later init init' ptr ptr' at_new later h = tt
Has-later init init' ptr ptr' at_flag later h = tt
Has-later init init' ptr ptr' at_unlock later h = (later h).0
Has-later init init' ptr ptr' at_return later h = (later h).0
Has-later init init' ptr ptr' (returned v) later h = ((later h.0).0, h.1 ∙ sym (later h.0).1)

record IsSame (s : Singleton) : Type 0 where
  locks : IsLocked s
  ptr : s.instance_ptr ≡ first s.created
  have : (i : ℕ) (p : Place) → get_elem? s.threads i ≡ some p → Has s.initialized s.instance_ptr p

-- The step of a thread to `q`, which has what belongs to that place.
kept :
    (s t : Singleton) (j : ℕ) (q : Place)
    → IsSame s
    → t.threads ≡ set s.threads j q
    → (s.initialized ≡ true → (t.initialized ≡ true) × (t.instance_ptr ≡ s.instance_ptr))
    → Has t.initialized t.instance_ptr q
    → (i : ℕ) (p : Place) → get_elem? t.threads i ≡ some p
    → Has t.initialized t.instance_ptr p
kept s t j q v e later h i p here =
    elim (get_elem?-set_inv s.threads j i p q
      (ap (λ (l : List Place). get_elem? l i) (sym e) ∙ here)) [
        | inl same ↦ subst (λ (r : Place). Has t.initialized t.instance_ptr r) (sym same) h
        | inr before ↦
            Has-later s.initialized t.initialized s.instance_ptr t.instance_ptr p later
              (v.have i p before)
      ]

first_place : (b : Bool) (ptr : Option ℕ) → Has b ptr (if b then at_return else at_lock)
first_place true ptr = refl
first_place false ptr = tt

second_place : (b : Bool) (ptr : Option ℕ) → Has b ptr (if b then at_unlock else at_new)
second_place true ptr = refl
second_place false ptr = tt

nothing_made :
    (s : Singleton) (j : ℕ) → get_elem? s.threads j ≡ some at_new → IsLocked s → s.created ≡ []
nothing_made s j here v =
    let unset = not_initialized s j at_new at_flag here v (omega arith) in
    empty s.created (
      ground (
        arith,
        v.made,
        v.holder,
        unset,
        total-le s.threads,
        total-set is_making s.threads j at_new at_first here,
      ))
  where
    empty : (l : List ℕ) → length l ≡ 0 → l ≡ []
    empty [] e = refl
    empty (a ∷ rest) e = absurd (omega (arith, e))

instance_at-IsSame :
    (a : ℕ) (p : Place) (j : ℕ) (s t : Singleton)
    → get_elem? s.threads j ≡ some p
    → IsSame s
    → instance_at a p j s ≡ some t
    → IsSame t
unfolding instance_at
instance_at-IsSame a at_first j s t here v e =
    subst (λ (u : Singleton). IsLocked u → IsSame u) (some_injective e)
      (λ locks. record {
        locks = locks;
        ptr = v.ptr;
        have =
            kept s (put j (if s.initialized then at_return else at_lock) s) j _ v refl
              (λ init. (init, refl)) (first_place s.initialized s.instance_ptr);
      })
      (instance_at-IsLocked a at_first j s t here v.locks e)
instance_at-IsSame a at_lock j s t here v e = elim (Bool-cases s.locked) [
  | inl taken ↦ absurd (cc (rw taken at e))
  | inr free ↦
      let same : some (put j at_second (record s { locked = true })) ≡ some t = rw free at e in
      subst (λ (u : Singleton). IsLocked u → IsSame u) (some_injective same)
        (λ locks. record {
          locks = locks;
          ptr = v.ptr;
          have =
              kept s (put j at_second (record s { locked = true })) j at_second v refl
                (λ init. (init, refl)) tt;
        })
        (instance_at-IsLocked a at_lock j s t here v.locks e)
]
instance_at-IsSame a at_second j s t here v e =
    subst (λ (u : Singleton). IsLocked u → IsSame u) (some_injective e)
      (λ locks. record {
        locks = locks;
        ptr = v.ptr;
        have =
            kept s (put j (if s.initialized then at_unlock else at_new) s) j _ v refl
              (λ init. (init, refl)) (second_place s.initialized s.instance_ptr);
      })
      (instance_at-IsLocked a at_second j s t here v.locks e)
instance_at-IsSame a at_new j s t here v e =
    let u : Singleton =
      put j at_flag (record s { instance_ptr = some a; created = s.created ++ (a ∷ []) }) in
    let unset = not_initialized s j at_new at_flag here v.locks (omega arith) in
    subst (λ (u : Singleton). IsLocked u → IsSame u) (some_injective e)
      (λ locks. record {
        locks = locks;
        ptr = ap (λ (l : List ℕ). first (l ++ (a ∷ []))) (sym (nothing_made s j here v.locks));
        have = kept s u j at_flag v refl (λ init. absurd (cc (unset, init))) tt;
      })
      (instance_at-IsLocked a at_new j s t here v.locks e)
instance_at-IsSame a at_flag j s t here v e =
    subst (λ (u : Singleton). IsLocked u → IsSame u) (some_injective e)
      (λ locks. record {
        locks = locks;
        ptr = v.ptr;
        have =
            kept s (put j at_unlock (record s { initialized = true })) j at_unlock v refl
              (λ init. (refl, refl)) refl;
      })
      (instance_at-IsLocked a at_flag j s t here v.locks e)
instance_at-IsSame a at_unlock j s t here v e =
    subst (λ (u : Singleton). IsLocked u → IsSame u) (some_injective e)
      (λ locks. record {
        locks = locks;
        ptr = v.ptr;
        have =
            kept s (put j at_return (record s { locked = false })) j at_return v refl
              (λ init. (init, refl)) (v.have j at_unlock here);
      })
      (instance_at-IsLocked a at_unlock j s t here v.locks e)
instance_at-IsSame a at_return j s t here v e =
    subst (λ (u : Singleton). IsLocked u → IsSame u) (some_injective e)
      (λ locks. record {
        locks = locks;
        ptr = v.ptr;
        have =
            kept s (put j (returned s.instance_ptr) s) j (returned s.instance_ptr) v refl
              (λ init. (init, refl)) (v.have j at_return here, refl);
      })
      (instance_at-IsLocked a at_return j s t here v.locks e)
instance_at-IsSame a (returned x) j s t here v e = absurd cc

Step-IsSame : {s t : Singleton} → IsSame s → Step false s t → IsSame t
Step-IsSame {s} v calls = record {
  locks = Step-IsLocked {d = false} v.locks calls;
  ptr = v.ptr;
  have = λ i p here. elim (get_elem?-append_inv s.threads at_first i p here) [
    | inl same ↦ subst (λ (r : Place). Has s.initialized s.instance_ptr r) (sym same) tt
    | inr before ↦ v.have i p before
  ];
}
Step-IsSame {s} v (works a j p u here e) = instance_at-IsSame a p j s u here v e
Step-IsSame v (destroys on) = absurd cc

Steps-IsSame : {s t : Singleton} → IsSame s → Steps false s t → IsSame t
Steps-IsSame v none_yet = v
Steps-IsSame v (and_then before step) = Step-IsSame (Steps-IsSame v before) step

the_one : (l : List ℕ) → length l ≡ 1 → (a : ℕ) × (l ≡ a ∷ [])
the_one [] e = absurd (omega (arith, e))
the_one (a ∷ []) e = (a, refl)
the_one (a ∷ b ∷ l) e = absurd (omega (arith, e))

-- In any steps of any threads that call `instance`, where `destroy` is not called: every thread that has
-- returned has the object that `new` gave, and `new` was called once.
pub created-returned :
    {s : Singleton} (i : ℕ) (v : Option ℕ)
    → Steps false unused s
    → get_elem? s.threads i ≡ some (returned v)
    → (a : ℕ) × (v ≡ some a) × (s.created ≡ a ∷ [])
created-returned {s} i v steps here =
    let start : IsSame unused = record {
      locks = unused-IsLocked;
      ptr = refl;
      have = λ j p nobody. absurd cc;
    } in
    let inv = Steps-IsSame start steps in
    let (init, is_ptr) = inv.have i (returned v) here in
    let (a, one) = the_one s.created (ground (arith, inv.locks.made, inv.locks.is_done init)) in
    (a, is_ptr ∙ inv.ptr ∙ ap first one, one)
