-- ===== src/Reactor/Dispatch/Tasks.antt =====
-- A round of `epoll_dispatch` with worker threads: which events go to the pool.
use nf_server.Prelude.{
  ℕ, ◌≡◌, ◌≢◌, ◌⊎◌, refl, sym, ap, subst, beq_ne, ◌∙◌, inl, inr, Bool, Bool-cases, true, false,
  ◌||◌, Option, none, some, List, [], ◌∷◌, ◌++◌, append_assoc, arith, has, Distinct, Distinct-snoc,
  has-append, not_has, ◌==◌, if◌then◌else◌,
}
use nf_server.Reactor.{Reactor, Call, null, modify, activate}
use nf_server.Reactor.Slots.{set_event_active}
use nf_server.Reactor.Dispatch.{Ready, run_event, dispatch_one, dispatch_all}

-- No EPOLLHUP and no EPOLLERR.
pub data ArePlain : List Ready → Type 0 where
  no_results : ArePlain []
  one_result :
      {es : List Ready} (e : Ready)
      → e.hup ≡ false
      → e.err ≡ false
      → ArePlain es
      → ArePlain (e ∷ es)

-- There are worker threads, and no event that reads is one that listens.
pub record IsThreaded (r : Reactor) : Type 0 where
  pub threads : r.threaded ≡ true
  pub no_listener : (fd : ℕ) → (r.ev (r.evread fd)).listen ≡ false

-- The event that a result asks for, where `evread` and `evwrite` are the slots, and those of a round in
-- order; NULL asks for nothing.
unfoldable pub wanted : Ready → (evread evwrite : ℕ → ℕ) → ℕ
wanted e evread evwrite =
    if e.readable then evread e.fd else if e.writable then evwrite e.fd else null

abbrev pub unless_null : ℕ → List ℕ → List ℕ
unless_null p ps = if p == null then ps else p ∷ ps

unfoldable pub asked : List Ready → (evread evwrite : ℕ → ℕ) → List ℕ
unfolding wanted
asked [] evread evwrite = []
asked (e ∷ es) evread evwrite = unless_null (wanted e evread evwrite) (asked es evread evwrite)

-- The numbers of a list that are neither busy nor in `seen` nor earlier in the list, the last one first.
unfoldable pub picked : List ℕ → (ℕ → Bool) → List ℕ → List ℕ
picked seen busy [] = []
picked seen busy (p ∷ ps) =
    let skipped = picked seen busy ps in
    let chosen = picked (p ∷ seen) busy ps ++ (p ∷ []) in
    if busy p || has p seen then skipped else chosen

-- The reactor after the events `ps`, the newest first, have been made active and given to the pool.
pub record IsClaimed (ps : List ℕ) (r r' : Reactor) : Type 0 where
  pub tasks : r'.tasks ≡ ps ++ r.tasks
  pub distinct : Distinct ps
  pub were_idle : (p : ℕ) → has p ps ≡ true → (r.ev p).active ≡ false
  pub are_active : (p : ℕ) → (r'.ev p).active ≡ ((r.ev p).active || has p ps)

abbrev given : ℕ → Reactor → Reactor
given p r = record (modify p activate r) { tasks = p ∷ r.tasks }

module _ (ctl : Call → Bool) (execute : ℕ → Reactor → Reactor) where
  run_event-given :
      (p : ℕ) (r : Reactor)
      → p ≢ null
      → r.threaded ≡ true
      → (((r.ev p).active ≡ true) × (run_event ctl execute p r ≡ r))
        ⊎ (((r.ev p).active ≡ false) × (run_event ctl execute p r ≡ given p r))
  unfolding run_event set_event_active
  run_event-given p r ne threads = elim (Bool-cases (r.ev p).active) [
    | inl busy ↦ inl (busy, ground arith)
    | inr idle ↦ inr (idle, ground arith)
  ]

  -- What a result that asks for the event at `q` leads to.
  abbrev IsGiven : ℕ → Reactor → Option Reactor → Type 0
  IsGiven q r o =
      (((q ≡ null) ⊎ ((r.ev q).active ≡ true)) × (o ≡ some r))
      ⊎ ((q ≢ null) × ((r.ev q).active ≡ false) × (o ≡ some (given q r)))

  slot-IsGiven :
      (p : ℕ) (r : Reactor)
      → r.threaded ≡ true
      → IsGiven p r (if p == null then some r else some (run_event ctl execute p r))
  slot-IsGiven p r threads = elim (Bool-cases (p == null)) [
    | inl nobody ↦ inl (inl (ground arith), rw nobody refl)
    | inr someone ↦
        let ne : p ≢ null = λ e. absurd (ground (arith, e)) in
        elim (run_event-given p r ne threads) [
          | inl (busy, same) ↦ inl (inr busy, rw someone (ap (λ (t : Reactor). some t) same))
          | inr (idle, new) ↦ inr (ne, idle, rw someone (ap (λ (t : Reactor). some t) new))
        ]
  ]

  listening-IsGiven :
      (listen : Bool) (p : ℕ) (x : Option Reactor) (r : Reactor)
      → listen ≡ false
      → r.threaded ≡ true
      → IsGiven p r
          (if p == null then some r else if listen then x else some (run_event ctl execute p r))
  listening-IsGiven true p x r off threads = absurd cc
  listening-IsGiven false p x r off threads = slot-IsGiven p r threads

  choose :
      {r : Reactor} (p q : ℕ) (hup err readable writable : Bool)
      (broken read write other : Option Reactor)
      → hup ≡ false
      → err ≡ false
      → IsGiven p r read
      → IsGiven q r write
      → IsGiven null r other
      → IsGiven (if readable then p else if writable then q else null) r (
          if hup
          then broken
          else if err
          then broken
          else if readable
          then read
          else if writable
          then write
          else other)
  choose p q true err readable writable broken read write other h e x y z = absurd cc
  choose p q false true readable writable broken read write other h e x y z = absurd cc
  choose p q false false true writable broken read write other h e x y z = x
  choose p q false false false true broken read write other h e x y z = y
  choose p q false false false false broken read write other h e x y z = z

  dispatch_one-IsGiven :
      (e : Ready) (r : Reactor)
      → e.hup ≡ false
      → e.err ≡ false
      → IsThreaded r
      → IsGiven (wanted e r.evread r.evwrite) r (dispatch_one ctl execute e r)
  unfolding dispatch_one wanted
  dispatch_one-IsGiven e r hup err v =
      choose (r.evread e.fd) (r.evwrite e.fd) e.hup e.err e.readable e.writable _ _ _ _ hup err
        (listening-IsGiven (r.ev (r.evread e.fd)).listen (r.evread e.fd) _ r (v.no_listener e.fd)
          v.threads)
        (slot-IsGiven (r.evwrite e.fd) r v.threads) (inl (inl refl, refl))

listen-given : (p q : ℕ) (r : Reactor) → ((given p r).ev q).listen ≡ (r.ev q).listen
listen-given p q r = elim (Bool-cases (q == p)) [
  | inl same ↦ let is : q ≡ p = ground arith in rw same (ap (λ (a : ℕ). (r.ev a).listen) (sym is))
  | inr other ↦ rw other refl
]

active-given : (p q : ℕ) (r : Reactor) → ((given p r).ev q).active ≡ ((r.ev q).active || (q == p))
active-given p q r = elim (Bool-cases (q == p)) [
  | inl same ↦ rw same (ground arith)
  | inr other ↦ rw other (ground arith)
]

given-IsThreaded : (p : ℕ) (r : Reactor) → IsThreaded r → IsThreaded (given p r)
given-IsThreaded p r v = record {
  threads = v.threads;
  no_listener = λ fd. listen-given p (r.evread fd) r ∙ v.no_listener fd;
}

-- One event more, before those of the rest of the round.
IsClaimed-given :
    (p : ℕ) (ps : List ℕ) (r r' : Reactor)
    → (r.ev p).active ≡ false
    → IsClaimed ps (given p r) r'
    → IsClaimed (ps ++ (p ∷ [])) r r'
IsClaimed-given p ps r r' idle v =
    let out : has p ps ≡ false =
      not_has p ps (λ m. absurd (ground (arith, v.were_idle p m, active-given p p r))) in
    record {
      tasks = v.tasks ∙ sym (append_assoc ps (p ∷ []) r.tasks);
      distinct = Distinct-snoc ps p v.distinct out;
      were_idle = λ q new. ground (
        arith,
        has-append q ps (p ∷ []),
        v.were_idle q,
        active-given p q r,
        ap (λ (a : ℕ). (r.ev a).active) {x = q} {y = p},
      );
      are_active =
          λ q. v.are_active q ∙ ground (arith, has-append q ps (p ∷ []), active-given p q r);
    }

-- What was active before the round, or was picked in it, is what is active.
abbrev AreSeen : List ℕ → (ℕ → Bool) → Reactor → Type 0
AreSeen seen busy r = (p : ℕ) → (r.ev p).active ≡ (busy p || has p seen)

AreSeen-given :
    (p : ℕ) (seen : List ℕ) (busy : ℕ → Bool) (r : Reactor)
    → AreSeen seen busy r
    → AreSeen (p ∷ seen) busy (given p r)
AreSeen-given p seen busy r v q = active-given p q r ∙ ground (arith, v q)

picked-skip :
    (p : ℕ) (seen : List ℕ) (busy : ℕ → Bool) (ps : List ℕ)
    → (p ≡ null) ⊎ ((busy p || has p seen) ≡ true)
    → picked seen busy (unless_null p ps) ≡ picked seen busy ps
unfolding picked
picked-skip p seen busy ps (inl e) =
    let nobody : p == null ≡ true = ground (arith, e) in rw nobody refl
picked-skip p seen busy ps (inr e) = elim (Bool-cases (p == null)) [
  | inl nobody ↦ rw nobody refl
  | inr someone ↦
      ap (λ t. picked seen busy (if t then ps else p ∷ ps)) someone
      ∙ ap (λ t. if t then picked seen busy ps else picked (p ∷ seen) busy ps ++ (p ∷ [])) e
]

picked-new :
    (p : ℕ) (seen : List ℕ) (busy : ℕ → Bool) (ps : List ℕ)
    → p ≢ null
    → (busy p || has p seen) ≡ false
    → picked seen busy (unless_null p ps) ≡ picked (p ∷ seen) busy ps ++ (p ∷ [])
unfolding picked
picked-new p seen busy ps ne e =
    ap (λ t. picked seen busy (if t then ps else p ∷ ps)) (beq_ne p null ne)
    ∙ ap (λ t. if t then picked seen busy ps else picked (p ∷ seen) busy ps ++ (p ∷ [])) e

module _ (ctl : Call → Bool) (execute : ℕ → Reactor → Reactor) (busy : ℕ → Bool) where
  abbrev IsRound : List ℕ → List Ready → Reactor → Type 0
  IsRound seen es r =
      (r' : Reactor) × (dispatch_all ctl execute es r ≡ some r')
      × IsClaimed (picked seen busy (asked es r.evread r.evwrite)) r r'

  round :
      (seen : List ℕ) (es : List Ready) (r : Reactor)
      → ArePlain es
      → IsThreaded r
      → AreSeen seen busy r
      → IsRound seen es r
  unfolding dispatch_all asked picked
  round seen [] r no_results v s = (
    r,
    refl,
    record { tasks = refl; distinct = tt; were_idle = λ p h. cc; are_active = λ p. ground arith },
  )
  round seen (e ∷ es) r (one_result _ hup err more) v s =
      let next = λ (o : Option Reactor).
        let w : Option Reactor = elim o as (λ x. Option Reactor) [
          | none ↦ none
          | some r' ↦ dispatch_all ctl execute es r'
        ] in
        w in
      let p = wanted e r.evread r.evwrite in
      let ps = asked es r.evread r.evwrite in
      elim (dispatch_one-IsGiven ctl execute e r hup err v) [
        | inl (why, same) ↦
            let (r', run, claimed) = round seen es r more v s in
            let skipped : (p ≡ null) ⊎ ((busy p || has p seen) ≡ true) = elim why [
              | inl nobody ↦ inl nobody
              | inr active ↦ inr (sym (s p) ∙ active)
            ] in
            (
              r',
              ap next same ∙ run,
              subst (λ qs. IsClaimed qs r r') (sym (picked-skip p seen busy ps skipped)) claimed,
            )
        | inr (ne, idle, new) ↦
            let (r', run, claimed) =
              round (p ∷ seen) es (given p r) more (given-IsThreaded p r v)
                (AreSeen-given p seen busy r s) in
            (
              r',
              ap next new ∙ run,
              subst (λ qs. IsClaimed qs r r')
                  (sym (picked-new p seen busy ps ne (sym (s p) ∙ idle)))
                  (IsClaimed-given p (picked (p ∷ seen) busy ps) r r' idle claimed),
            )
      ]

-- A round of `epoll_dispatch` with worker threads, over any results without EPOLLHUP and EPOLLERR for
-- events that do not listen: it ends and gives the pool exactly the events that the results ask for and
-- that were not active before, in the order of the results, each of them once, also where several
-- results ask for it; these events are active afterwards, and no other event becomes active or stops
-- being it.
pub dispatch_all-IsClaimed :
    (ctl : Call → Bool) (execute : ℕ → Reactor → Reactor) (es : List Ready) (r : Reactor)
    → ArePlain es
    → IsThreaded r
    → (r' : Reactor) × (dispatch_all ctl execute es r ≡ some r')
      × IsClaimed (picked [] (λ p. (r.ev p).active) (asked es r.evread r.evwrite)) r r'
dispatch_all-IsClaimed ctl execute es r plain v =
    round ctl execute (λ p. (r.ev p).active) [] es r plain v (λ p. ground arith)
