-- ===== src/SyncReactor/Ext.antt =====
-- `extfun` and the end of `callback` of NfUnit/extreactor.cpp: what an EXTReactor does with the events in
-- its queue after `stopUntilEmpty`, in one thread, where `size() > 0` means that `pop` does not wait;
-- SyncReactor/Workers has several threads.
use nf_server.Prelude.{
  ℕ, zero, suc, ◌≡◌, ◌≢◌, refl, ap, ◌∙◌, Bool, true, false, Option, none, some, List, [], ◌∷◌,
  arith, if◌then◌else◌, update, length, beq_ne,
}
use nf_server.SyncReactor.{running, World, Call, set_event, discard, ext_event, settle}
use nf_server.SyncReactor.Dispatch.{is_finished, called}
use nf_server.SyncReactor.Post.{AreEvents, no_events, one_event}

module _ (ctl : Call → Bool) (callback : ℕ → World → World) where
  -- `extfun` on a queue that is not empty: the first event and the rest of the queue.
  extfun : (fuel : ℕ) → ℕ → List ℕ → World → Option World
  unfolding ext_event
  extfun fuel p ps w = ext_event ctl callback fuel p (record w { ext_queue = ps })

  -- The loop `while(_queue->size() > 0)` for at most `rounds` rounds.
  pub empty_queue : (rounds fuel : ℕ) → List ℕ → World → Option World
  unfolding extfun
  empty_queue rounds fuel [] w = some w
  empty_queue zero fuel (p ∷ ps) w = none
  empty_queue (suc rounds) fuel (p ∷ ps) w = elim (extfun fuel p ps w) [
    | none ↦ none
    | some w' ↦ empty_queue rounds fuel w'.ext_queue w'
  ]

-- The callback finishes every event, and neither posts nor deletes any.
pub record IsFinishing (callback : ℕ → World → World) : Type 0 where
  pub finishes : (p : ℕ) (w : World) → is_finished ((callback p w).ev p) ≡ true
  pub keeps_queue : (p : ℕ) (w : World) → (callback p w).ext_queue ≡ w.ext_queue
  pub keeps_live : (p : ℕ) (w : World) → (callback p w).live ≡ w.live

abbrev pub all_freed : List ℕ → (ℕ → Bool) → ℕ → Bool
all_freed [] live = live
all_freed (p ∷ ps) live = all_freed ps (update live p false)

settle-finished :
    (ctl : Call → Bool) (callback : ℕ → World → World) (extern : ℕ → World → Option World) (p : ℕ)
    (w : World)
    → is_finished (w.ev p) ≡ true
    → settle ctl callback extern p w ≡ some (discard p w)
unfolding settle
settle-finished ctl callback extern p w fin = ground arith

module _ (ctl : Call → Bool) {callback : ℕ → World → World} (v : IsFinishing callback)
    (fuel : ℕ) where
  -- The state after one round.
  abbrev after : ℕ → List ℕ → World → World
  after p ps w = discard p (called callback p (record w { ext_queue = ps }))

  extfun-after :
      (p : ℕ) (ps : List ℕ) (w : World)
      → p ≢ 0
      → extfun ctl callback (suc fuel) p ps w ≡ some (after p ps w)
  unfolding extfun ext_event
  extfun-after p ps w ne =
      let w₁ : World = record w { ext_queue = ps } in
      ap
        (λ t.
          if t
          then none
          else settle ctl callback (ext_event ctl callback fuel) p (called callback p w₁))
        (beq_ne p 0 ne)
      ∙ settle-finished ctl callback (ext_event ctl callback fuel) p (called callback p w₁)
          (v.finishes p (set_event p (λ e. record e { status = running }) w₁))

  empty_all :
      (ps : List ℕ) (w : World)
      → AreEvents ps
      → w.ext_queue ≡ ps
      → (w' : World) × (empty_queue ctl callback (length ps) (suc fuel) ps w ≡ some w')
        × (w'.ext_queue ≡ [])
        × (w'.live ≡ all_freed ps w.live)
  unfolding empty_queue
  empty_all [] w no_events q = (w, refl, q, refl)
  empty_all (p ∷ ps) w (one_event _ ne more) q =
      let w₁ = after p ps w in
      let s : World =
        set_event p (λ e. record e { status = running }) (record w { ext_queue = ps }) in
      let left : w₁.ext_queue ≡ ps = v.keeps_queue p s in
      let rest = empty_all ps w₁ more left in
      (
        rest.0,
        ap
              (λ o. elim o as (λ x. Option World) [
                | none ↦ none
                | some w' ↦ empty_queue ctl callback (length ps) (suc fuel) w'.ext_queue w'
              ])
              (extfun-after p ps w ne)
            ∙ ap (λ l. empty_queue ctl callback (length ps) (suc fuel) l w₁) left
            ∙ rest.1,
        rest.2,
        rest.3 ∙ ap (λ m. all_freed ps (update m p false)) (v.keeps_live p s),
      )

-- When the callback finishes every event and posts and deletes none, the loop that empties the queue of
-- an EXTReactor with one thread ends after as many rounds as there are events: the queue is then empty, and exactly the
-- events of the queue have been deleted.
pub empty_queue_lem :
    (ctl : Call → Bool) {callback : ℕ → World → World} (fuel : ℕ) (w : World)
    → IsFinishing callback
    → AreEvents w.ext_queue
    → (w' : World) × (empty_queue ctl callback (length w.ext_queue) (suc fuel) w.ext_queue w
        ≡ some w')
      × (w'.ext_queue ≡ [])
      × (w'.live ≡ all_freed w.ext_queue w.live)
empty_queue_lem ctl fuel w v good = empty_all ctl v fuel w.ext_queue w good refl
