-- ===== src/Timer/Due.antt =====
-- What is due: `expire_timer_ms` against a look at every entry, and what `top_timer_ms` says is left.
use nf_server.Prelude.{
  ℕ, ◌+◌, ◌-◌, ◌*◌, ◌/◌, ◌%◌, ◌^◌, ◌<◌, ◌≡◌, refl, sym, ap, ap₂, Bool, true, not, ◌&&◌, Option,
  none, some, List, [], ◌∷◌, arith, ltb, leb, if◌then◌else◌, inl, inr, Bool-cases,
}
use nf_server.Prelude.Int.{ℤ, pos, negsuc, pos_part, neg_part, sub_ℕ, ◌+ℤ◌, ltb_ℤ}
use nf_server.Timer.{
  Entry, Timeval, Call, signed, to_int, get_time_msec, insert, add_timer_ms, fire, erase_due,
  expire_timer_ms, top_timer_ms,
}
use nf_server.Timer.Order.{IsOrdered, IsBehind}

abbrev pub is_due : ℤ → Entry → Bool
is_due msec x = not (ltb_ℤ msec x.due)

-- The calls for all entries that are due.
abbrev pub calls_of : ℤ → List Entry → List Call
calls_of msec [] = []
calls_of msec (x ∷ xs) =
    if is_due msec x
    then record { proc = x.proc; param = x.param } ∷ calls_of msec xs
    else calls_of msec xs

-- The entries that are not due.
abbrev pub kept : ℤ → List Entry → List Entry
kept msec [] = []
kept msec (x ∷ xs) = if is_due msec x then kept msec xs else x ∷ kept msec xs

-- An empty list is the read of the end.
abbrev pub or_end : List Entry → Option (List Entry)
or_end [] = none
or_end (x ∷ xs) = some (x ∷ xs)

abbrev pub left : ℤ → List Entry → Option (List Entry)
left msec [] = some []
left msec (x ∷ xs) = or_end (kept msec (x ∷ xs))

-- Behind an entry that is not due none is.
none_due :
    (msec : ℤ) (x : Entry) (xs : List Entry)
    → IsBehind x xs
    → IsOrdered xs
    → ltb_ℤ msec x.due ≡ true
    → (calls_of msec xs ≡ []) × (kept msec xs ≡ xs)
none_due msec x [] b o h = (refl, refl)
none_due msec x (y ∷ ys) b (by, o) h =
    let late : ltb_ℤ msec y.due ≡ true = ground arith in
    let rest = none_due msec y ys by o late in (rw late rest.0, rw late (ap (λ l. y ∷ l) rest.1))

fire-calls_of : (msec : ℤ) (xs : List Entry) → IsOrdered xs → fire msec xs ≡ calls_of msec xs
unfolding fire
fire-calls_of msec [] o = refl
fire-calls_of msec (x ∷ xs) (b, o) = elim (Bool-cases (ltb_ℤ msec x.due)) [
  | inl late ↦ rw late (sym (none_due msec x xs b o late).0)
  | inr now ↦ rw now (
      ap (λ (l : List Call). record { proc = x.proc; param = x.param } ∷ l)
        (fire-calls_of msec xs o))
]

erase_due-kept :
    (msec : ℤ) (xs : List Entry) → IsOrdered xs → erase_due msec xs ≡ or_end (kept msec xs)
unfolding erase_due
erase_due-kept msec [] o = refl
erase_due-kept msec (x ∷ xs) (b, o) = elim (Bool-cases (ltb_ℤ msec x.due)) [
  | inl late ↦ rw late (ap (λ l. some (x ∷ l)) (sym (none_due msec x xs b o late).1))
  | inr now ↦ rw now (erase_due-kept msec xs o)
]

-- On an ordered timer `expire_timer_ms` does what a look at every entry would: it makes the calls of
-- exactly the entries that are due, in their order, and leaves the others. If there are entries and all
-- are due, it then reads the end of the multimap.
pub expire_timer_ms_lem :
    (now : Timeval) (timer : List Entry)
    → IsOrdered timer
    → expire_timer_ms now timer
      ≡ (calls_of (to_int (get_time_msec now)) timer, left (to_int (get_time_msec now)) timer)
unfolding expire_timer_ms
expire_timer_ms_lem now [] o = refl
expire_timer_ms_lem now (x ∷ xs) o =
    let msec = to_int (get_time_msec now) in
    ap₂ (λ (c : List Call) (l : Option (List Entry)). (c, l)) (fire-calls_of msec (x ∷ xs) o)
      (erase_due-kept msec (x ∷ xs) o)

mod_small : (n : ℕ) → n < 2 ^ 32 → n % 2 ^ 32 ≡ n
mod_small n h = omega arith

-- A delay added to a clock reading, as an `int`.
added_at :
    (m d : ℕ)
    → m < 2 ^ 32
    → d < 2 ^ 31
    → to_int (signed m +ℤ pos d) ≡ (
        if leb (2 ^ 31) (m + d) && ltb m (2 ^ 31)
        then negsuc (2 ^ 32 - 1 - (m + d))
        else signed m +ℤ pos d)
unfolding to_int
added_at m d h k = elim (Bool-cases (ltb m (2 ^ 31))) [
  | inl low ↦ ground (arith, mod_small (m + d) (ground arith))
  | inr high ↦ ground (
    arith,
    mod_small (d - (2 ^ 32 - m)) (omega arith),
    mod_small (2 ^ 32 - m - d - 1) (omega arith),
  )
]

-- The clock's milliseconds in the 32 bits that an `int` keeps.
abbrev pub low_bits : Timeval → ℕ
low_bits now = (now.tv_sec * 1000 + now.tv_usec / 1000) % 2 ^ 32

left_from :
    (m d : ℕ) (due : ℤ)
    → m < 2 ^ 32
    → d < 2 ^ 31
    → due ≡ (
        if leb (2 ^ 31) (m + d) && ltb m (2 ^ 31)
        then negsuc (2 ^ 32 - 1 - (m + d))
        else signed m +ℤ pos d)
    → sub_ℕ (pos_part due + neg_part (signed m)) (neg_part due + pos_part (signed m))
      ≡ (if leb (2 ^ 31) (m + d) && ltb m (2 ^ 31) then negsuc (2 ^ 32 - 1 - d) else pos d)
left_from m d due h k e = elim (Bool-cases (ltb m (2 ^ 31))) [
  | inl low ↦ ground arith
  | inr high ↦ ground arith
]

-- For a timer that was just added to an empty one, `d` milliseconds ahead, `top_timer_ms` at the same time
-- gives `d`; but where the low 32 bits of the clock, which `int msec` keeps, are below 2 ^ 31 and reach it
-- with `d` added, it gives `d` - 2 ^ 32, a time long past.
pub top_timer_ms-add_timer_ms :
    (now : Timeval) (d proc param : ℕ)
    → d < 2 ^ 31
    → top_timer_ms now (add_timer_ms now (pos d) proc param []).1 ≡ (
        if leb (2 ^ 31) (low_bits now + d) && ltb (low_bits now) (2 ^ 31)
        then negsuc (2 ^ 32 - 1 - d)
        else pos d)
unfolding top_timer_ms add_timer_ms insert
top_timer_ms-add_timer_ms now d proc param h =
    left_from (low_bits now) d (add_timer_ms now (pos d) proc param []).0 (omega arith) h
      (added_at (low_bits now) d (omega arith) h)
