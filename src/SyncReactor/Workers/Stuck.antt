-- ===== src/SyncReactor/Workers/Stuck.antt =====
-- How the threads of an EXTReactor do not end.
use nf_server.Prelude.{
  ℕ, zero, suc, ◌≡◌, ◌≢◌, refl, sym, ap, ◌∙◌, inl, inr, Bool-cases, Bool, true, false, ◌==◌, Option,
  none, some, List, [], ◌∷◌, ◌++◌, some_injective, arith, get_elem?, set, get_elem?-set_ne,
}
use nf_server.SyncReactor.Workers.{
  Place, at_run, in_pop, at_emptystop, at_size, in_last_pop, ended, in_event, in_last_event,
  Workers, extfun, callback_at, Step, works, stops, empties, Steps, none_yet, and_then, can_join,
  ext_join, ext_destroy,
}
use nf_server.SyncReactor.Workers.Moves.{waits, callback_at-Moves}

-- A thread that waits in `pop` at an empty queue.
record IsStuck (i : ℕ) (p : Place) (w : Workers) : Type 0 where
  here : get_elem? w.threads i ≡ some p
  nothing : w.queue ≡ []

extfun-nothing : (j : ℕ) (next : ℕ → Place) (w : Workers) → w.queue ≡ [] → extfun j next w ≡ none
unfolding extfun
extfun-nothing j next w nothing =
    ap
      (λ (q : List ℕ).
        let o : Option Workers = elim q as (λ x. Option Workers) [
          | [] ↦ none
          | ev ∷ evs ↦ some (record w {
            queue = evs;
            threads = set w.threads j (next ev);
            taken = w.taken ++ (ev ∷ []);
          })
        ] in
        o)
      nothing

callback_at-waits :
    (again : ℕ → Bool) (p : Place) (j : ℕ) (w : Workers)
    → waits p ≡ true
    → w.queue ≡ []
    → callback_at again p j w ≡ none
unfolding callback_at
callback_at-waits again at_run j w h nothing = absurd cc
callback_at-waits again in_pop j w h nothing = extfun-nothing j in_event w nothing
callback_at-waits again at_emptystop j w h nothing = absurd cc
callback_at-waits again at_size j w h nothing = absurd cc
callback_at-waits again in_last_pop j w h nothing = extfun-nothing j in_last_event w nothing
callback_at-waits again ended j w h nothing = absurd cc
callback_at-waits again (in_event ev) j w h nothing = absurd cc
callback_at-waits again (in_last_event ev) j w h nothing = absurd cc

Step-IsStuck :
    (again : ℕ → Bool) (i : ℕ) (p : Place) {t u : Workers}
    → ((ev : ℕ) → again ev ≡ false)
    → waits p ≡ true
    → IsStuck i p t
    → Step again t u
    → IsStuck i p u
Step-IsStuck again i p {t} done h v (works j q u at e) =
    let m = callback_at-Moves again q j t u done at e in
    elim (Bool-cases (j == i)) [
      | inl same ↦
          let is : j ≡ i = ground arith in
          let it : q ≡ p = some_injective (sym at ∙ ap (get_elem? t.threads) is ∙ v.here) in
          absurd (cc (e, callback_at-waits again q j t (ap waits it ∙ h) v.nothing))
      | inr apart ↦
          let ne : j ≢ i = λ is. absurd (ground (arith, is)) in
          record {
            here =
                ap (λ (l : List Place). get_elem? l i) m.threads
                ∙ get_elem?-set_ne t.threads j i m.place ne
                ∙ v.here;
            nothing = m.follows.stays_empty v.nothing;
          }
    ]
Step-IsStuck again i p done h v stops = record { here = v.here; nothing = v.nothing }
Step-IsStuck again i p done h v empties = record { here = v.here; nothing = v.nothing }

Steps-IsStuck :
    (again : ℕ → Bool) (i : ℕ) (p : Place) {t u : Workers}
    → ((ev : ℕ) → again ev ≡ false)
    → waits p ≡ true
    → IsStuck i p t
    → Steps again t u
    → IsStuck i p u
Steps-IsStuck again i p done h v none_yet = v
Steps-IsStuck again i p done h v (and_then before step) =
    Step-IsStuck again i p done h (Steps-IsStuck again i p done h v before) step

can_join-waits :
    (ps : List Place) (i : ℕ) (p : Place)
    → get_elem? ps i ≡ some p
    → waits p ≡ true
    → can_join ps ≡ false
can_join-waits [] i p here h = absurd cc
can_join-waits (at_run ∷ ps) i p here h = refl
can_join-waits (in_pop ∷ ps) i p here h = refl
can_join-waits (at_emptystop ∷ ps) i p here h = refl
can_join-waits (at_size ∷ ps) i p here h = refl
can_join-waits (in_last_pop ∷ ps) i p here h = refl
can_join-waits (in_event ev ∷ ps) i p here h = refl
can_join-waits (in_last_event ev ∷ ps) i p here h = refl
can_join-waits (ended ∷ ps) zero p here h = absurd (cc (ap waits (some_injective here), h))
can_join-waits (ended ∷ ps) (suc i) p here h = can_join-waits ps i p here h

-- A thread that waits in the `pop` of either loop at an empty queue waits for ever where nothing is
-- posted and every event is done after its callback, whatever the other threads do and also after `stop` and `stopUntilEmpty`, so that `join` and
-- the destructor never return.
pub ext_join-Steps :
    (again : ℕ → Bool) {w w' : Workers} (i : ℕ) (p : Place)
    → ((ev : ℕ) → again ev ≡ false)
    → waits p ≡ true
    → get_elem? w.threads i ≡ some p
    → w.queue ≡ []
    → Steps again w w'
    → (get_elem? w'.threads i ≡ some p)
      × (w'.queue ≡ [])
      × (ext_join w' ≡ none)
      × (ext_destroy w' ≡ none)
ext_join-Steps again {w} {w'} i p done h here nothing steps =
    let v = Steps-IsStuck again i p done h (record { here = here; nothing = nothing }) steps in
    let waits_on = can_join-waits w'.threads i p v.here h in
    (v.here, v.nothing, rw waits_on refl, rw waits_on refl)
