-- ===== src/Singleton/Once.antt =====
-- `new` is called once.
use nf_server.Prelude.{
  ℕ, ◌+◌, ◌≤◌, ◌<◌, ◌≡◌, refl, sym, ap, ◌∙◌, subst, Bool, true, false, Bool-cases, inl, inr, some,
  List, [], ◌∷◌, ◌++◌, get_elem?, set, if◌then◌else◌, total, total-append, total-set, length,
  length-append, arith, some_injective,
}
use nf_server.Singleton.{
  Place, at_first, at_lock, at_second, at_new, at_flag, at_unlock, at_return, returned, Singleton,
  put, instance_at, Step, calls, works, destroys, Steps, none_yet, and_then, unused,
}

-- The threads that hold the lock, and of these the ones before `new` and before the write of
-- `_initialized`.
abbrev pub holds_lock : Place → ℕ
holds_lock at_first = 0
holds_lock at_lock = 0
holds_lock at_second = 1
holds_lock at_new = 1
holds_lock at_flag = 1
holds_lock at_unlock = 1
holds_lock at_return = 0
holds_lock (returned v) = 0

abbrev pub is_making : Place → ℕ
is_making at_first = 0
is_making at_lock = 0
is_making at_second = 0
is_making at_new = 1
is_making at_flag = 0
is_making at_unlock = 0
is_making at_return = 0
is_making (returned v) = 0

abbrev pub is_flagging : Place → ℕ
is_flagging at_first = 0
is_flagging at_lock = 0
is_flagging at_second = 0
is_flagging at_new = 0
is_flagging at_flag = 1
is_flagging at_unlock = 0
is_flagging at_return = 0
is_flagging (returned v) = 0

pub total-le : (ps : List Place) → total is_making ps + total is_flagging ps ≤ total holds_lock ps
total-le [] = omega arith
total-le (at_first ∷ ps) = omega (arith, total-le ps)
total-le (at_lock ∷ ps) = omega (arith, total-le ps)
total-le (at_second ∷ ps) = omega (arith, total-le ps)
total-le (at_new ∷ ps) = omega (arith, total-le ps)
total-le (at_flag ∷ ps) = omega (arith, total-le ps)
total-le (at_unlock ∷ ps) = omega (arith, total-le ps)
total-le (at_return ∷ ps) = omega (arith, total-le ps)
total-le (returned v ∷ ps) = omega (arith, total-le ps)

-- One thread at most holds the lock, and `new` was called once if `_initialized` is set or is about to be.
pub record IsLocked (s : Singleton) : Type 0 where
  pub holder : total holds_lock s.threads ≡ (if s.locked then 1 else 0)
  pub made : length s.created ≡ (if s.initialized then 1 else 0) + total is_flagging s.threads
  pub is_done : s.initialized ≡ true → total is_making s.threads + total is_flagging s.threads ≡ 0

-- A thread that goes from one place to another.
module _ (s : Singleton) (j : ℕ) (p q : Place) (here : get_elem? s.threads j ≡ some p)
    (v : IsLocked s) where
  moved-holder :
      (locked : Bool)
      → (if locked then 1 else 0) + holds_lock p ≡ (if s.locked then 1 else 0) + holds_lock q
      → total holds_lock (set s.threads j q) ≡ (if locked then 1 else 0)
  moved-holder locked e = omega (arith, v.holder, e, total-set holds_lock s.threads j p q here)

  moved-made :
      (n : ℕ) (init : Bool)
      → n + is_flagging p + (if s.initialized then 1 else 0)
        ≡ length s.created + is_flagging q + (if init then 1 else 0)
      → n ≡ (if init then 1 else 0) + total is_flagging (set s.threads j q)
  moved-made n init e = omega (arith, v.made, e, total-set is_flagging s.threads j p q here)

  moved-is_done :
      is_making q + is_flagging q ≤ is_making p + is_flagging p
      → s.initialized ≡ true
      → total is_making (set s.threads j q) + total is_flagging (set s.threads j q) ≡ 0
  moved-is_done e init = omega (
    arith,
    v.is_done init,
    e,
    total-set is_making s.threads j p q here,
    total-set is_flagging s.threads j p q here,
  )

  -- Before `new` and before the write of `_initialized`, it is not set.
  pub not_initialized : 0 < is_making p + is_flagging p → s.initialized ≡ false
  not_initialized busy = elim (Bool-cases s.initialized) [
    | inr unset ↦ unset
    | inl init ↦ absurd (
        omega (
          arith,
          v.is_done init,
          busy,
          total-set is_making s.threads j p at_first here,
          total-set is_flagging s.threads j p at_first here,
        ))
  ]

pub instance_at-IsLocked :
    (a : ℕ) (p : Place) (j : ℕ) (s t : Singleton)
    → get_elem? s.threads j ≡ some p
    → IsLocked s
    → instance_at a p j s ≡ some t
    → IsLocked t
unfolding instance_at
instance_at-IsLocked a at_first j s t here v e =
    let q = if s.initialized then at_return else at_lock in
    subst (λ (u : Singleton). IsLocked u) (some_injective e)
      (record {
        holder = moved-holder s j at_first q here v s.locked (ground arith);
        made = moved-made s j at_first q here v (length s.created) s.initialized (ground arith);
        is_done = moved-is_done s j at_first q here v (ground arith);
      })
instance_at-IsLocked a at_lock j s t here v e = elim (Bool-cases s.locked) [
  | inl taken ↦ absurd (cc (rw taken at e))
  | inr free ↦
      let same : some (put j at_second (record s { locked = true })) ≡ some t = rw free at e in
      subst (λ (u : Singleton). IsLocked u) (some_injective same)
        (record {
          holder = moved-holder s j at_lock at_second here v true (rw free (omega arith));
          made =
              moved-made s j at_lock at_second here v (length s.created) s.initialized
                (omega arith);
          is_done = moved-is_done s j at_lock at_second here v (omega arith);
        })
]
instance_at-IsLocked a at_second j s t here v e = elim (Bool-cases s.initialized) [
  | inl init ↦
      let same : some (put j at_unlock s) ≡ some t =
        ap (λ (b : Bool). some (put j (if b then at_unlock else at_new) s)) (sym init) ∙ e in
      subst (λ (u : Singleton). IsLocked u) (some_injective same)
        (record {
          holder = moved-holder s j at_second at_unlock here v s.locked (omega arith);
          made =
              moved-made s j at_second at_unlock here v (length s.created) s.initialized
                (omega arith);
          is_done = moved-is_done s j at_second at_unlock here v (omega arith);
        })
  | inr unset ↦
      let same : some (put j at_new s) ≡ some t =
        ap (λ (b : Bool). some (put j (if b then at_unlock else at_new) s)) (sym unset) ∙ e in
      subst (λ (u : Singleton). IsLocked u) (some_injective same)
        (record {
          holder = moved-holder s j at_second at_new here v s.locked (omega arith);
          made =
              moved-made s j at_second at_new here v (length s.created) s.initialized (omega arith);
          is_done = λ init. absurd (cc (unset, init));
        })
]
instance_at-IsLocked a at_new j s t here v e =
    let unset = not_initialized s j at_new at_flag here v (omega arith) in
    subst (λ (u : Singleton). IsLocked u) (some_injective e)
      (record {
        holder = moved-holder s j at_new at_flag here v s.locked (omega arith);
        made =
            moved-made s j at_new at_flag here v (length (s.created ++ (a ∷ []))) s.initialized
              (omega (arith, length-append s.created (a ∷ [])));
        is_done = λ init. absurd (cc (unset, init));
      })
instance_at-IsLocked a at_flag j s t here v e =
    let unset = not_initialized s j at_flag at_unlock here v (omega arith) in
    subst (λ (u : Singleton). IsLocked u) (some_injective e)
      (record {
        holder = moved-holder s j at_flag at_unlock here v s.locked (omega arith);
        made =
            moved-made s j at_flag at_unlock here v (length s.created) true
              (rw unset (omega arith));
        is_done = λ _. ground (
          arith,
          v.holder,
          total-le s.threads,
          total-set is_making s.threads j at_flag at_unlock here,
          total-set is_flagging s.threads j at_flag at_unlock here,
        );
      })
instance_at-IsLocked a at_unlock j s t here v e =
    subst (λ (u : Singleton). IsLocked u) (some_injective e)
      (record {
        holder =
            moved-holder s j at_unlock at_return here v false
              (ground (arith, v.holder, total-set holds_lock s.threads j at_unlock at_return here));
        made =
            moved-made s j at_unlock at_return here v (length s.created) s.initialized
              (omega arith);
        is_done = moved-is_done s j at_unlock at_return here v (omega arith);
      })
instance_at-IsLocked a at_return j s t here v e =
    subst (λ (u : Singleton). IsLocked u) (some_injective e)
      (record {
        holder = moved-holder s j at_return (returned s.instance_ptr) here v s.locked (omega arith);
        made =
            moved-made s j at_return (returned s.instance_ptr) here v (length s.created)
              s.initialized (omega arith);
        is_done = moved-is_done s j at_return (returned s.instance_ptr) here v (omega arith);
      })
instance_at-IsLocked a (returned x) j s t here v e = absurd cc

pub Step-IsLocked : {d : Bool} {s t : Singleton} → IsLocked s → Step d s t → IsLocked t
Step-IsLocked {s = s} v calls = record {
  holder = omega (arith, v.holder, total-append holds_lock s.threads at_first);
  made = omega (arith, v.made, total-append is_flagging s.threads at_first);
  is_done = λ init. omega (
    arith,
    v.is_done init,
    total-append is_making s.threads at_first,
    total-append is_flagging s.threads at_first,
  );
}
Step-IsLocked {s = s} {t} v (works a j p u here e) = instance_at-IsLocked a p j s u here v e
Step-IsLocked v (destroys on) = record { holder = v.holder; made = v.made; is_done = v.is_done }

pub Steps-IsLocked : {d : Bool} {s t : Singleton} → IsLocked s → Steps d s t → IsLocked t
Steps-IsLocked v none_yet = v
Steps-IsLocked v (and_then before step) = Step-IsLocked (Steps-IsLocked v before) step

pub unused-IsLocked : IsLocked unused
unused-IsLocked = record { holder = refl; made = refl; is_done = λ init. cc }

-- In any steps of any threads that call `instance`, with calls of `destroy` among them or without, `new`
-- is called at most once.
pub created_once : {d : Bool} {s : Singleton} → Steps d unused s → length s.created ≤ 1
created_once {d} {s} steps =
    let v = Steps-IsLocked unused-IsLocked steps in
    elim (Bool-cases s.initialized) [
      | inl init ↦ ground (arith, v.made, v.is_done init)
      | inr unset ↦ ground (arith, v.made, v.holder, total-le s.threads)
    ]
