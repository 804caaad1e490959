-- ===== src/SyncReactor/Cancel.antt =====
-- `cancel` of NfUnit/syncReactor.cpp and NfUnit/extreactor.cpp, and what becomes of an event that is
-- canceled before it runs.
use mathlib.Core.Path.{fun_ext}
use nf_server.Prelude.{
  ℕ, zero, suc, ◌≡◌, refl, ap, Bool, Option, none, some, [], ◌∷◌, arith, if◌then◌else◌, ◌==◌,
  update, update_self, not, ◌∙◌, ◌++◌, inl, inr, Bool-cases,
}
use nf_server.Prelude.Int.{ℤ, success, failure}
use nf_server.SyncReactor.{
  Event, World, Call, running, ready, sync, canceled, set_event, is_active, has_flag, epoll_add,
  post, ext_post, ext_event, settle,
}

-- `SyncReactor::cancel`.
pub cancel : ℕ → World → ℤ × World
cancel p w =
    if p == 0 then (failure, w) else (success, set_event p (λ e. record e { status = canceled }) w)

-- `EXTReactor::cancel`.
pub ext_cancel : ℕ → World → ℤ × World
ext_cancel p w =
    if p == 0 then (failure, w) else (success, set_event p (λ e. record e { status = canceled }) w)

-- A write to an event over another write to it.
update_twice :
    (f : ℕ → Event) (p : ℕ) (x y z : Event) → y ≡ z → update (update f p x) p y ≡ update f p z
update_twice f p x y z same = fun_ext (λ a. ground (arith, same))

set-canceled :
    (p : ℕ) (g : Event → Event) (w : World)
    → ((e : Event) → g (record e { status = canceled }) ≡ g e)
    → set_event p g (set_event p (λ e. record e { status = canceled }) w) ≡ set_event p g w
set-canceled p g w same =
    let put = record (w.ev p) { status = canceled } in
    ap (λ (f : ℕ → Event). record w { ev = f })
      (update_twice w.ev p put (g (update w.ev p put p)) (g (w.ev p))
        (ap g (update_self w.ev p put) ∙ same (w.ev p)))

module _ (ctl : Call → Bool) (p : ℕ) (w : World) where
  canceled_first : World
  canceled_first = set_event p (λ e. record e { status = canceled }) w

  ext_event-canceled_first :
      (callback : ℕ → World → World) (fuel : ℕ)
      → ext_event ctl callback fuel p canceled_first ≡ ext_event ctl callback fuel p w
  unfolding ext_event canceled_first
  ext_event-canceled_first callback zero = refl
  ext_event-canceled_first callback (suc fuel) =
      ap
        (λ (v : World).
          if p == 0
          then none
          else settle ctl callback (ext_event ctl callback fuel) p (callback p v))
        (set-canceled p (λ e. record e { status = running }) w (λ e. refl))

  post-canceled_first :
      (extern : ℕ → World → Option World) → post ctl extern p canceled_first ≡ post ctl extern p w
  unfolding post canceled_first
  post-canceled_first extern =
      ap
        (λ (v : World).
          if p == 0
          then none
          else if not (is_active v.phase)
          then some (record v { queue = v.queue ++ (p ∷ []) })
          else if has_flag (v.ev p).kind 0
          then (if v.has_ext then some (ext_post p v).1 else extern p v)
          else if has_flag (v.ev p).kind 1
          then some (epoll_add ctl p v).1
          else some v)
        (set-canceled p (λ e. record e { owner = sync; status = ready }) w (λ e. refl))

-- Whether an event is canceled before it runs makes no difference: `extEvent` calls its callback all the
-- same and does then what it would have done, and so does `SyncReactor::post`, in which it is dispatched.
pub ext_event-cancel :
    (ctl : Call → Bool) (callback : ℕ → World → World) (extern : ℕ → World → Option World)
    (fuel p : ℕ) (w : World)
    → (ext_event ctl callback fuel p (cancel p w).1 ≡ ext_event ctl callback fuel p w)
      × (ext_event ctl callback fuel p (ext_cancel p w).1 ≡ ext_event ctl callback fuel p w)
      × (post ctl extern p (cancel p w).1 ≡ post ctl extern p w)
unfolding cancel ext_cancel canceled_first
ext_event-cancel ctl callback extern fuel p w = elim (Bool-cases (p == 0)) [
  | inl null ↦ rw null (refl, refl, refl)
  | inr event ↦
      let runs = ext_event-canceled_first ctl p w callback fuel in
      rw event (runs, runs, post-canceled_first ctl p w extern)
]
