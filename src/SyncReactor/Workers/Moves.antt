-- ===== src/SyncReactor/Workers/Moves.antt =====
-- What one step of a thread of an EXTReactor changes.
use nf_server.Prelude.{
  ℕ, ◌≡◌, ◌≢◌, ◌⊎◌, refl, sym, ap, ◌∙◌, subst, inl, inr, Bool, true, false, Option, none, some,
  List, [], ◌∷◌, ◌++◌, some_injective, append_assoc, set, get_elem?, total, total-set, total-append,
  arith, ◌+◌, ◌==◌, if◌then◌else◌,
}
use nf_server.SyncReactor.Workers.{
  Place, at_run, in_pop, at_emptystop, at_size, in_last_pop, ended, in_event, in_last_event,
  Workers, put, extfun, handle_event, is_empty, callback_at,
}

-- How often an event is in a list, and how many threads are between `pop` and the end of `extEvent` with
-- it.
abbrev pub is : ℕ → ℕ → ℕ
is e ev = if ev == e then 1 else 0

abbrev pub in_hand : ℕ → Place → ℕ
in_hand e at_run = 0
in_hand e in_pop = 0
in_hand e at_emptystop = 0
in_hand e at_size = 0
in_hand e in_last_pop = 0
in_hand e ended = 0
in_hand e (in_event ev) = is e ev
in_hand e (in_last_event ev) = is e ev

-- The same for an event that was run, is in hand or waits in the queue.
abbrev pub known : ℕ → Workers → ℕ
known e w = total (is e) w.ran + total (in_hand e) w.threads + total (is e) w.queue

-- What is left of the queue and what was taken are the events there were, in their order; each event
-- that was taken is in hand or was run; and an empty queue stays empty.
pub record Follows (w w' : Workers) : Type 0 where
  pub order : w'.taken ++ w'.queue ≡ w.taken ++ w.queue
  pub kept : (e : ℕ) → known e w' ≡ known e w
  pub stays_empty : w.queue ≡ [] → w'.queue ≡ []

-- A step of thread `j`, to the place `q`.
pub record Moves (p : Place) (j : ℕ) (w w' : Workers) : Type 0 where
  pub place : Place
  pub threads : w'.threads ≡ set w.threads j place
  pub follows : Follows w w'
  pub emptystop : w'.emptystop ≡ w.emptystop
  pub ends : place ≡ ended → (w.emptystop ≡ false) ⊎ (w'.queue ≡ [])

abbrev pub waits : Place → Bool
waits at_run = false
waits in_pop = true
waits at_emptystop = false
waits at_size = false
waits in_last_pop = true
waits ended = false
waits (in_event ev) = false
waits (in_last_event ev) = false

put-Moves :
    (p q : Place) (j : ℕ) (w w' : Workers)
    → get_elem? w.threads j ≡ some p
    → ◌≡◌ {A = Option Workers} (some (put j q w)) (some w')
    → ((e : ℕ) → in_hand e q ≡ in_hand e p)
    → (q ≡ ended → (w.emptystop ≡ false) ⊎ (w.queue ≡ []))
    → Moves p j w w'
put-Moves p q j w w' at eq hands h =
    subst (λ (v : Workers). Moves p j w v) (some_injective eq)
      (record {
        place = q;
        threads = refl;
        follows = record {
          order = refl;
          kept = λ e. omega (arith, total-set (in_hand e) w.threads j p q at, hands e);
          stays_empty = λ empty. empty;
        };
        emptystop = refl;
        ends = h;
      })

extfun-Moves :
    (p : Place) (next : ℕ → Place) (j : ℕ) (w w' : Workers)
    → get_elem? w.threads j ≡ some p
    → extfun j next w ≡ some w'
    → ((e : ℕ) → in_hand e p ≡ 0)
    → ((e ev : ℕ) → in_hand e (next ev) ≡ is e ev)
    → ((ev : ℕ) → next ev ≢ ended)
    → Moves p j w w'
unfolding extfun
extfun-Moves p next j w w' at eq free full goes_on = go w.queue refl eq
  where
    go :
        (q : List ℕ)
        → w.queue ≡ q
        → (elim q as (λ x. Option Workers) [
          | [] ↦ none
          | ev ∷ evs ↦ some (record w {
            queue = evs;
            threads = set w.threads j (next ev);
            taken = w.taken ++ (ev ∷ []);
          })
        ])
          ≡ some w'
        → Moves p j w w'
    go [] same eq = absurd cc
    go (ev ∷ evs) same eq =
        subst (λ (v : Workers). Moves p j w v) (some_injective eq)
          (record {
            place = next ev;
            threads = refl;
            follows = record {
              order =
                  append_assoc w.taken (ev ∷ []) evs ∙ ap (λ (l : List ℕ). w.taken ++ l) (sym same);
              kept = λ e. omega (
                arith,
                total-set (in_hand e) w.threads j p (next ev) at,
                free e,
                full e ev,
                ap (total (is e)) same,
              );
              stays_empty = λ empty. absurd cc;
            };
            emptystop = refl;
            ends = λ end. absurd (goes_on ev end);
          })

event-Moves :
    (again : ℕ → Bool) (p back : Place) (ev j : ℕ) (w w' : Workers)
    → again ev ≡ false
    → get_elem? w.threads j ≡ some p
    → ◌≡◌ {A = Option Workers} (some (handle_event again j back ev w)) (some w')
    → ((e : ℕ) → in_hand e p ≡ is e ev)
    → ((e : ℕ) → in_hand e back ≡ 0)
    → back ≢ ended
    → Moves p j w w'
event-Moves again p back ev j w w' done at eq full free goes_on =
    subst (λ (v : Workers). Moves p j w v) (same ∙ some_injective eq)
      (record {
        place = back;
        threads = refl;
        follows = record {
          order = refl;
          kept = λ e. omega (
            arith,
            total-set (in_hand e) w.threads j p back at,
            total-append (is e) w.ran ev,
            full e,
            free e,
          );
          stays_empty = λ empty. empty;
        };
        emptystop = refl;
        ends = λ end. absurd (goes_on end);
      })
  where
    same :
        record w { threads = set w.threads j back; ran = w.ran ++ (ev ∷ []) }
        ≡ handle_event again j back ev w
    same =
        ap
          (λ t.
            let v : Workers = record w {
              queue = if t then w.queue ++ (ev ∷ []) else w.queue;
              threads = set w.threads j back;
              ran = w.ran ++ (ev ∷ []);
            } in
            v)
          (sym done)

-- The next places after the three tests.
run_place :
    (b : Bool)
    → ((if b then in_pop else at_emptystop) ≢ ended)
      × ((e : ℕ) → in_hand e (if b then in_pop else at_emptystop) ≡ 0)
run_place true = (λ end. cc, λ e. refl)
run_place false = (λ end. cc, λ e. refl)

stop_place :
    (b : Bool)
    → ((if b then at_size else ended) ≡ ended → b ≡ false)
      × ((e : ℕ) → in_hand e (if b then at_size else ended) ≡ 0)
stop_place true = (λ end. cc, λ e. refl)
stop_place false = (λ end. refl, λ e. refl)

size_place :
    (q : List ℕ)
    → ((if is_empty q then ended else in_last_pop) ≡ ended → q ≡ [])
      × ((e : ℕ) → in_hand e (if is_empty q then ended else in_last_pop) ≡ 0)
size_place [] = (λ end. refl, λ e. refl)
size_place (ev ∷ evs) = (λ end. cc, λ e. refl)

pub callback_at-Moves :
    (again : ℕ → Bool) (p : Place) (j : ℕ) (w w' : Workers)
    → ((ev : ℕ) → again ev ≡ false)
    → get_elem? w.threads j ≡ some p
    → callback_at again p j w ≡ some w'
    → Moves p j w w'
unfolding callback_at
callback_at-Moves again at_run j w w' done at eq =
    put-Moves at_run (if w.run then in_pop else at_emptystop) j w w' at eq (run_place w.run).1
      (λ end. absurd ((run_place w.run).0 end))
callback_at-Moves again in_pop j w w' done at eq =
    extfun-Moves in_pop in_event j w w' at eq (λ e. refl) (λ e ev. refl) (λ ev end. cc)
callback_at-Moves again at_emptystop j w w' done at eq =
    put-Moves at_emptystop (if w.emptystop then at_size else ended) j w w' at eq
      (stop_place w.emptystop).1 (λ end. inl ((stop_place w.emptystop).0 end))
callback_at-Moves again at_size j w w' done at eq =
    put-Moves at_size (if is_empty w.queue then ended else in_last_pop) j w w' at eq
      (size_place w.queue).1 (λ end. inr ((size_place w.queue).0 end))
callback_at-Moves again in_last_pop j w w' done at eq =
    extfun-Moves in_last_pop in_last_event j w w' at eq (λ e. refl) (λ e ev. refl) (λ ev end. cc)
callback_at-Moves again ended j w w' done at eq = absurd cc
callback_at-Moves again (in_event ev) j w w' done at eq =
    event-Moves again (in_event ev) at_run ev j w w' (done ev) at eq (λ e. refl) (λ e. refl)
      (λ end. cc)
callback_at-Moves again (in_last_event ev) j w w' done at eq =
    event-Moves again (in_last_event ev) at_size ev j w w' (done ev) at eq (λ e. refl) (λ e. refl)
      (λ end. cc)
