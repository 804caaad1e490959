-- ===== src/Singleton/Again.antt =====
-- `instance` after `destroy`.
use nf_server.Prelude.{
  ℕ, ◌≤◌, ◌≡◌, refl, sym, subst, Bool, true, false, Bool-cases, inl, inr, Option, none, some, List,
  get_elem?, set, if◌then◌else◌, length, arith, some_injective, get_elem?-set_inv,
  get_elem?-append_inv, get_elem?-within,
}
use nf_server.Singleton.{
  Place, at_first, at_lock, at_second, at_new, at_flag, at_unlock, at_return, returned, Singleton,
  put, instance_at, destroy, Step, calls, works, destroys, Steps, none_yet, and_then, unused,
}
use nf_server.Singleton.Once.{
  IsLocked, Step-IsLocked, Steps-IsLocked, unused-IsLocked, instance_at-IsLocked, not_initialized,
}

-- Every thread from the `n`-th on that has returned has NULL.
abbrev AllNull : ℕ → List Place → Type 0
AllNull n ps = (i : ℕ) (v : Option ℕ) → n ≤ i → get_elem? ps i ≡ some (returned v) → v ≡ none

record IsGone (n : ℕ) (s : Singleton) : Type 0 where
  locks : IsLocked s
  set_once : s.initialized ≡ true
  no_object : s.instance_ptr ≡ none
  nulls : AllNull n s.threads

AllNull-set :
    (n : ℕ) (ps : List Place) (j : ℕ) (q : Place)
    → AllNull n ps
    → ((v : Option ℕ) → q ≡ returned v → v ≡ none)
    → AllNull n (set ps j q)
AllNull-set n ps j q all null i v within here =
    elim (get_elem?-set_inv ps j i (returned v) q here) [
      | inl same ↦ null v (sym same)
      | inr before ↦ all i v within before
    ]

-- A place that is not the end of a call.
abbrev IsInside : Place → Type 0
IsInside p = (v : Option ℕ) → p ≡ returned v → v ≡ none

first_place : (b : Bool) → IsInside (if b then at_return else at_lock)
first_place true v e = absurd cc
first_place false v e = absurd cc

second_place : (b : Bool) → IsInside (if b then at_unlock else at_new)
second_place true v e = absurd cc
second_place false v e = absurd cc

returned_null : (w v : Option ℕ) → w ≡ none → returned w ≡ returned v → v ≡ none
returned_null w v null e = cc

instance_at-IsGone :
    (n a : ℕ) (p : Place) (j : ℕ) (s t : Singleton)
    → get_elem? s.threads j ≡ some p
    → IsGone n s
    → instance_at a p j s ≡ some t
    → IsGone n t
unfolding instance_at
instance_at-IsGone n a at_first j s t here v e =
    subst (λ (u : Singleton). IsLocked u → IsGone n u) (some_injective e)
      (λ locks. record {
        locks = locks;
        set_once = v.set_once;
        no_object = v.no_object;
        nulls = AllNull-set n s.threads j _ v.nulls (first_place s.initialized);
      })
      (instance_at-IsLocked a at_first j s t here v.locks e)
instance_at-IsGone n a at_lock j s t here v e = elim (Bool-cases s.locked) [
  | inl taken ↦ absurd (cc (rw taken at e))
  | inr free ↦
      let same : some (put j at_second (record s { locked = true })) ≡ some t = rw free at e in
      subst (λ (u : Singleton). IsLocked u → IsGone n u) (some_injective same)
        (λ locks. record {
          locks = locks;
          set_once = v.set_once;
          no_object = v.no_object;
          nulls = AllNull-set n s.threads j at_second v.nulls (λ w q. absurd cc);
        })
        (instance_at-IsLocked a at_lock j s t here v.locks e)
]
instance_at-IsGone n a at_second j s t here v e =
    subst (λ (u : Singleton). IsLocked u → IsGone n u) (some_injective e)
      (λ locks. record {
        locks = locks;
        set_once = v.set_once;
        no_object = v.no_object;
        nulls = AllNull-set n s.threads j _ v.nulls (second_place s.initialized);
      })
      (instance_at-IsLocked a at_second j s t here v.locks e)
instance_at-IsGone n a at_new j s t here v e =
    absurd (cc (v.set_once, not_initialized s j at_new at_flag here v.locks (omega arith)))
instance_at-IsGone n a at_flag j s t here v e =
    absurd (cc (v.set_once, not_initialized s j at_flag at_unlock here v.locks (omega arith)))
instance_at-IsGone n a at_unlock j s t here v e =
    subst (λ (u : Singleton). IsLocked u → IsGone n u) (some_injective e)
      (λ locks. record {
        locks = locks;
        set_once = v.set_once;
        no_object = v.no_object;
        nulls = AllNull-set n s.threads j at_return v.nulls (λ w q. absurd cc);
      })
      (instance_at-IsLocked a at_unlock j s t here v.locks e)
instance_at-IsGone n a at_return j s t here v e =
    subst (λ (u : Singleton). IsLocked u → IsGone n u) (some_injective e)
      (λ locks. record {
        locks = locks;
        set_once = v.set_once;
        no_object = v.no_object;
        nulls =
            AllNull-set n s.threads j (returned s.instance_ptr) v.nulls
              (λ w q. returned_null s.instance_ptr w v.no_object q);
      })
      (instance_at-IsLocked a at_return j s t here v.locks e)
instance_at-IsGone n a (returned x) j s t here v e = absurd cc

Step-IsGone : (n : ℕ) {d : Bool} {s t : Singleton} → IsGone n s → Step d s t → IsGone n t
Step-IsGone n {d} {s} v calls = record {
  locks = Step-IsLocked {d = d} v.locks calls;
  set_once = v.set_once;
  no_object = v.no_object;
  nulls = λ i w within here. elim (get_elem?-append_inv s.threads at_first i (returned w) here) [
    | inl same ↦ absurd cc
    | inr before ↦ v.nulls i w within before
  ];
}
Step-IsGone n {d} {s} v (works a j p u here e) = instance_at-IsGone n a p j s u here v e
Step-IsGone n {d} v (destroys on) = record {
  locks = Step-IsLocked {d = d} v.locks (destroys on);
  set_once = v.set_once;
  no_object = refl;
  nulls = v.nulls;
}

Steps-IsGone : (n : ℕ) {d : Bool} {s t : Singleton} → IsGone n s → Steps d s t → IsGone n t
Steps-IsGone n v none_yet = v
Steps-IsGone n v (and_then before step) = Step-IsGone n (Steps-IsGone n v before) step

-- After a `destroy` in a state that any steps lead to and in which `_initialized` is set: it stays set and
-- `_instance` stays NULL for ever, and every thread that calls `instance` after the `destroy` and returns
-- has NULL.
pub instance-destroy :
    {d d' : Bool} {s t : Singleton} (i : ℕ) (v : Option ℕ)
    → Steps d unused s
    → s.initialized ≡ true
    → Steps d' (destroy s) t
    → length s.threads ≤ i
    → get_elem? t.threads i ≡ some (returned v)
    → (v ≡ none) × (t.instance_ptr ≡ none) × (t.initialized ≡ true)
instance-destroy {d} {d'} {s} {t} i v before init after late here =
    let locks = Step-IsLocked {d = true} (Steps-IsLocked unused-IsLocked before) (destroys refl) in
    let start : IsGone (length s.threads) (destroy s) = record {
      locks = locks;
      set_once = init;
      no_object = refl;
      nulls = λ j w within there.
          absurd (omega (arith, within, get_elem?-within s.threads j (returned w) there));
    } in
    let inv = Steps-IsGone (length s.threads) start after in
    (inv.nulls i v late here, inv.no_object, inv.set_once)
