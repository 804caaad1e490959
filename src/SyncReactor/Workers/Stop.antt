-- ===== src/SyncReactor/Workers/Stop.antt =====
-- How the threads of an EXTReactor end after `stopUntilEmpty`.
use nf_server.Prelude.{
  ℕ, ◌≡◌, ◌≢◌, refl, sym, ap, ◌∙◌, inl, inr, Bool-cases, Bool, true, false, total, ◌+◌, ◌==◌, some,
  List, [], ◌++◌, some_injective, append-nil, arith, get_elem?, set, get_elem?-set_ne,
  get_elem?-set_self,
}
use nf_server.SyncReactor.Workers.{
  Place, ended, Workers, Step, works, stops, empties, Steps, none_yet, and_then,
}
use nf_server.SyncReactor.Workers.Moves.{Follows, is, in_hand, callback_at-Moves}

-- What holds once `_emptystop` is set, in a state that came from `w`.
record IsDraining (w w' : Workers) : Type 0 where
  follows : Follows w w'
  emptystop : w'.emptystop ≡ true
  ends_empty : (i : ℕ) → get_elem? w'.threads i ≡ some ended → w'.queue ≡ []

Step-IsDraining :
    (again : ℕ → Bool) {w t u : Workers}
    → ((ev : ℕ) → again ev ≡ false)
    → IsDraining w t
    → Step again t u
    → IsDraining w u
Step-IsDraining again {w} {t} done v (works j p u at e) =
    let m = callback_at-Moves again p j t u done at e in
    record {
      follows = record {
        order = m.follows.order ∙ v.follows.order;
        kept = λ a. m.follows.kept a ∙ v.follows.kept a;
        stays_empty = λ empty. m.follows.stays_empty (v.follows.stays_empty empty);
      };
      emptystop = m.emptystop ∙ v.emptystop;
      ends_empty = λ i end. elim (Bool-cases (j == i)) [
        | inl same ↦
            let is : j ≡ i = ground arith in
            let new : get_elem? (set t.threads j m.place) i ≡ some m.place =
              ap (get_elem? (set t.threads j m.place)) (sym is)
              ∙ get_elem?-set_self t.threads j p m.place at in
            let it_ends : m.place ≡ ended =
              some_injective
                (sym new ∙ ap (λ (l : List Place). get_elem? l i) (sym m.threads) ∙ end) in
            elim (m.ends it_ends) [
              | inl unset ↦ absurd (ground (arith, v.emptystop, unset))
              | inr empty ↦ empty
            ]
        | inr apart ↦
            let ne : j ≢ i = λ is. absurd (ground (arith, is)) in
            m.follows.stays_empty (
              v.ends_empty i (
                sym (get_elem?-set_ne t.threads j i m.place ne)
                ∙ ap (λ (l : List Place). get_elem? l i) (sym m.threads)
                ∙ end))
      ];
    }
Step-IsDraining again done v stops = record {
  follows = record {
    order = v.follows.order;
    kept = v.follows.kept;
    stays_empty = v.follows.stays_empty;
  };
  emptystop = v.emptystop;
  ends_empty = v.ends_empty;
}
Step-IsDraining again done v empties = record {
  follows = record {
    order = v.follows.order;
    kept = v.follows.kept;
    stays_empty = v.follows.stays_empty;
  };
  emptystop = refl;
  ends_empty = v.ends_empty;
}

Steps-IsDraining :
    (again : ℕ → Bool) {w t u : Workers}
    → ((ev : ℕ) → again ev ≡ false)
    → IsDraining w t
    → Steps again t u
    → IsDraining w u
Steps-IsDraining again done v none_yet = v
Steps-IsDraining again done v (and_then before step) =
    Step-IsDraining again done (Steps-IsDraining again done v before) step

-- From a state in which `_emptystop` is set and no thread has ended yet, while nothing is posted and
-- every event is done after its callback: in whatever order the threads go on, where one of them has
-- ended, the queue is empty, exactly the events that were in it have been taken since, once each and in
-- their order, and each of these, like each that a thread held before, has been run once or is still
-- held by one other thread, which has it from `pop` and has not got to the end of `extEvent`.
pub queue-ended :
    (again : ℕ → Bool) {w w' : Workers} (i : ℕ)
    → ((ev : ℕ) → again ev ≡ false)
    → w.emptystop ≡ true
    → ((j : ℕ) → get_elem? w.threads j ≢ some ended)
    → Steps again w w'
    → get_elem? w'.threads i ≡ some ended
    → (w'.queue ≡ [])
      × (w'.taken ≡ w.taken ++ w.queue)
      × ((e : ℕ)
          → total (is e) w'.ran + total (in_hand e) w'.threads
            ≡ total (is e) w.ran + total (in_hand e) w.threads + total (is e) w.queue)
queue-ended again {w} {w'} i done set_before none_ended steps end =
    let start : IsDraining w w = record {
      follows = record { order = refl; kept = λ e. refl; stays_empty = λ empty. empty };
      emptystop = set_before;
      ends_empty = λ j e. absurd (none_ended j e);
    } in
    let v = Steps-IsDraining again done start steps in
    let empty = v.ends_empty i end in
    (
      empty,
      sym (append-nil w'.taken) ∙ ap (λ (l : List ℕ). w'.taken ++ l) (sym empty) ∙ v.follows.order,
      λ e. omega (arith, v.follows.kept e, ap (total (is e)) empty),
    )
