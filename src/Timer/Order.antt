-- ===== src/Timer/Order.antt =====
-- The entries stay in the order of their times, and what was added can be deleted.
use nf_server.Prelude.{
  ℕ, ◌≡◌, refl, ap, true, false, ◌&&◌, List, [], ◌∷◌, arith, ◌==◌, inl, inr, Bool-cases, beq_eq,
}
use nf_server.Prelude.Int.{ℤ, ◌+ℤ◌, ltb_ℤ}
use nf_server.Timer.{
  Entry, Timeval, to_int, get_time_msec, eqb_ℤ, insert, add_timer_ms, erase_param, del_timer_ms,
}

-- The first entry, if there is one, is not due before `e`.
abbrev pub IsBehind : Entry → List Entry → Type 0
IsBehind e [] = Unit {0}
IsBehind e (x ∷ xs) = ltb_ℤ x.due e.due ≡ false

-- No entry is due before the one in front of it.
abbrev pub IsOrdered : List Entry → Type 0
IsOrdered [] = Unit {0}
IsOrdered (x ∷ xs) = IsBehind x xs × IsOrdered xs

insert-IsBehind :
    (x e : Entry) (xs : List Entry)
    → ltb_ℤ e.due x.due ≡ false
    → IsBehind x xs
    → IsBehind x (insert e xs)
unfolding insert
insert-IsBehind x e [] le b = le
insert-IsBehind x e (y ∷ ys) le b = elim (Bool-cases (ltb_ℤ e.due y.due)) [
  | inl lt ↦ rw lt le
  | inr ge ↦ rw ge b
]

pub insert-IsOrdered : (e : Entry) (xs : List Entry) → IsOrdered xs → IsOrdered (insert e xs)
unfolding insert
insert-IsOrdered e [] o = (tt, tt)
insert-IsOrdered e (x ∷ xs) (b, o) = elim (Bool-cases (ltb_ℤ e.due x.due)) [
  | inl lt ↦ rw lt (ground arith, (b, o))
  | inr ge ↦ rw ge (insert-IsBehind x e xs ge b, insert-IsOrdered e xs o)
]

-- No entry with the time has the parameter.
abbrev pub IsFree : ℤ → ℕ → List Entry → Type 0
IsFree time param [] = Unit {0}
IsFree time param (x ∷ xs) =
    ((eqb_ℤ x.due time && (x.param == param)) ≡ false) × IsFree time param xs

eqb_self : (a : ℤ) → eqb_ℤ a a ≡ true
eqb_self a = ground arith

eqb_of : (a b : ℤ) → ltb_ℤ a b ≡ false → ltb_ℤ b a ≡ false → eqb_ℤ a b ≡ true
eqb_of a b h k = ground arith

IsBehind-eq :
    (x e : Entry) (ys : List Entry) → eqb_ℤ x.due e.due ≡ true → IsBehind x ys → IsBehind e ys
IsBehind-eq x e [] same h = tt
IsBehind-eq x e (y ∷ ys) same h = ground arith

-- Among entries that are not due before it, a new one is found behind those of its time.
erase_param-insert :
    (e : Entry) (xs : List Entry)
    → IsBehind e xs
    → IsOrdered xs
    → IsFree e.due e.param xs
    → erase_param e.due e.param (insert e xs) ≡ xs
unfolding erase_param insert
erase_param-insert e [] b o f = rw (eqb_self e.due, beq_eq e.param e.param refl) refl
erase_param-insert e (x ∷ xs) b (bx, o) (fx, f) = elim (Bool-cases (ltb_ℤ e.due x.due)) [
  | inl lt ↦ rw (lt, eqb_self e.due, beq_eq e.param e.param refl) refl
  | inr ge ↦
      let same : eqb_ℤ x.due e.due ≡ true = eqb_of x.due e.due b ge in
      let other : (x.param == e.param) ≡ false = rw same at fx in
      rw (ge, same, other)
        (ap (λ l. x ∷ l) (erase_param-insert e xs (IsBehind-eq x e xs same bx) o f))
]

del_timer_ms-insert :
    (e : Entry) (xs : List Entry)
    → IsOrdered xs
    → IsFree e.due e.param xs
    → del_timer_ms e.due e.param (insert e xs) ≡ xs
unfolding del_timer_ms erase_param insert
del_timer_ms-insert e [] o f = rw (eqb_self e.due, beq_eq e.param e.param refl) refl
del_timer_ms-insert e (x ∷ xs) (bx, o) (fx, f) = elim (Bool-cases (ltb_ℤ e.due x.due)) [
  | inl lt ↦ rw (lt, eqb_self e.due, beq_eq e.param e.param refl) refl
  | inr ge ↦ elim (Bool-cases (eqb_ℤ x.due e.due)) [
    | inl same ↦
        let other : (x.param == e.param) ≡ false = rw same at fx in
        rw (ge, same, other)
          (ap (λ l. x ∷ l) (erase_param-insert e xs (IsBehind-eq x e xs same bx) o f))
    | inr ne ↦ rw (ge, ne) (ap (λ l. x ∷ l) (del_timer_ms-insert e xs o f))
  ]
]

-- A timer stays ordered when an entry is added, and `del_timer_ms` with the time that `add_timer_ms`
-- returned and the same parameter takes exactly that entry out again, if no entry with that time and
-- parameter was there.
pub del_timer_ms-add_timer_ms :
    (now : Timeval) (time : ℤ) (proc param : ℕ) (timer : List Entry)
    → IsOrdered timer
    → IsFree (add_timer_ms now time proc param timer).0 param timer
    → IsOrdered (add_timer_ms now time proc param timer).1
      × (del_timer_ms
            (add_timer_ms now time proc param timer).0
            param
            (add_timer_ms now time proc param timer).1
          ≡ timer)
unfolding add_timer_ms
del_timer_ms-add_timer_ms now time proc param timer o f =
    let e : Entry = record {
      due = to_int (to_int (get_time_msec now) +ℤ time);
      proc = proc;
      param = param;
    } in
    (insert-IsOrdered e timer o, del_timer_ms-insert e timer o f)
