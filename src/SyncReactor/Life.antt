-- ===== src/SyncReactor/Life.antt =====
-- NfUnit/syncReactor.cpp and NfUnit/extreactor.cpp: how a SyncReactor and its EXTReactor are set up,
-- stopped and destroyed. What `malloc`, `epoll_create` and `atoi` give are arguments. The end of the
-- EXTReactor's threads in `join` and in its destructor is outside the model.
use nf_server.Prelude.{
  ◌≡◌, refl, ap, inl, inr, Bool-cases, Bool, true, false, Option, none, some, List, [], ◌∷◌,
  if◌then◌else◌,
}
use nf_server.Prelude.Int.{ℤ, pos, success, failure, ltb_ℤ}
use nf_server.Config.{Bytes, Section, get_item}
use nf_server.SyncReactor.{Phase, idle, stopped}

-- The fields of an EXTReactor.
record Ext : Type 0 where
  ext_run : Bool
  ext_emptystop : Bool
  ext_status : Phase
  maxevs : ℤ
  threadsnum : ℤ

abbrev new_ext : Ext
new_ext = record {
  ext_run = false;
  ext_emptystop = false;
  ext_status = idle;
  maxevs = pos 50000;
  threadsnum = pos 2;
}

-- `_extReactor`: NULL, an EXTReactor, or one that was deleted.
data ExtPtr : Type 0 where
  no_ext : ExtPtr
  an_ext : Ext → ExtPtr
  deleted_ext : ExtPtr

-- `epev` says whether `_epev` points at an array; `closed` holds the descriptors that were closed.
record Life : Type 0 where
  run : Bool
  status : Phase
  emptystop : Bool
  ext_reactor : ExtPtr
  epev : Bool
  epfd : ℤ
  max_events : ℤ
  p_num : ℤ
  closed : List ℤ

-- The constructor; it leaves `_pNum` as it finds it.
abbrev new_life : ℤ → Life
new_life p_num = record {
  run = false;
  status = idle;
  emptystop = false;
  ext_reactor = no_ext;
  epev = false;
  epfd = failure;
  max_events = pos 10000;
  p_num = p_num;
  closed = [];
}

-- `EXTReactor::stop` and `EXTReactor::stopUntilEmpty`.
abbrev ext_stop : Ext → Ext
ext_stop x = record x { ext_run = false }

abbrev ext_stop_until_empty : Ext → Ext
ext_stop_until_empty x = record x { ext_run = false; ext_emptystop = true }

-- A call on the EXTReactor where there is one; a deleted one is accessed.
abbrev on_ext : (Ext → Ext) → Life → Option Life
on_ext f l = elim l.ext_reactor [
  | no_ext ↦ some l
  | an_ext x ↦ some (record l { ext_reactor = an_ext (f x) })
  | deleted_ext ↦ none
]

-- `SyncReactor::stop`, `stopUntilEmpty` and `join`.
abbrev stop : Life → Option Life
stop l = on_ext ext_stop (record l { run = false })

abbrev stop_until_empty : Life → Option Life
stop_until_empty l = on_ext ext_stop_until_empty (record l { run = false; emptystop = true })

abbrev join : Life → Option Life
join l = on_ext (λ x. record x { ext_status = stopped }) (record l { status = stopped })

-- `SyncReactor::getExtReactor`, `setExtReactor` and `setMaxEvents`.
abbrev get_ext_reactor : Life → ExtPtr
get_ext_reactor l = l.ext_reactor

abbrev set_ext_reactor : ExtPtr → Life → ExtPtr × Life
set_ext_reactor x l = (x, record l { ext_reactor = x })

abbrev set_max_events : ℤ → Life → Life
set_max_events n l = record l { max_events = n }

-- `EXTReactor::setMaxEvents`, `setThread` and `load`.
abbrev ext_set_max_events : ℤ → Ext → Ext
ext_set_max_events n x = record x { maxevs = n }

abbrev ext_set_thread : ℤ → Ext → Ext
ext_set_thread n x = record x { threadsnum = n }

abbrev max_events_key : Bytes
max_events_key = b'M' ∷ b'a' ∷ b'x' ∷ b'E' ∷ b'v' ∷ b'e' ∷ b'n' ∷ b't' ∷ b's' ∷ []

abbrev thread_num_key : Bytes
thread_num_key = b'T' ∷ b'h' ∷ b'r' ∷ b'e' ∷ b'a' ∷ b'd' ∷ b'N' ∷ b'u' ∷ b'm' ∷ []

abbrev ext_load : (Bytes → ℤ) → Section → Ext → Ext
ext_load atoi sec x = record x {
  maxevs = atoi (get_item max_events_key sec);
  threadsnum = atoi (get_item thread_num_key sec);
}

-- `SyncReactor::load`.
unfoldable load : (Bytes → ℤ) → Section → Life → Option Life
load atoi sec l =
    let m = atoi (get_item max_events_key sec) in
    let k = atoi (get_item thread_num_key sec) in
    on_ext (λ x. ext_set_max_events m (ext_set_thread k x)) (record l { max_events = m; p_num = k })

-- The end of `SyncReactor::destroy`. An array is not freed: `free` is called on NULL only.
close_epfd : Life → Life
close_epfd l =
    if ltb_ℤ (pos 0) l.epfd then record l { epfd = failure; closed = l.epfd ∷ l.closed } else l

-- `SyncReactor::destroy`, by its EXTReactor; the pointer to the deleted EXTReactor is kept.
destroy_with : ExtPtr → Life → Option Life
unfolding close_epfd
destroy_with no_ext l = some (close_epfd l)
destroy_with (an_ext x) l = some (close_epfd (record l { ext_reactor = deleted_ext }))
destroy_with deleted_ext l = none

destroy : Life → Option Life
unfolding destroy_with
destroy l = destroy_with l.ext_reactor l

-- What `SyncReactor::create` does: it returns, or an assertion or an access fails.
data Created : Type 0 where
  returned : ℤ → Life → Created
  aborted : Created

failed : Option Life → Created
failed none = aborted
failed (some l) = returned failure l

create : (malloc : Bool) → (epfd : ℤ) → Life → Created
unfolding destroy failed
create malloc epfd l =
    let l1 : Life = record l { epev = malloc } in
    let l2 : Life = record l1 { epfd = epfd } in
    if ltb_ℤ (pos 1) l.max_events
    then (if malloc
        then (if ltb_ℤ epfd (pos 0) then failed (destroy l2) else returned success l2)
        else failed (destroy l1))
    else aborted

ext_reactor-close_epfd : (l : Life) → (close_epfd l).ext_reactor ≡ l.ext_reactor
unfolding close_epfd
ext_reactor-close_epfd l = elim (Bool-cases (ltb_ℤ (pos 0) l.epfd)) [
  | inl some_fd ↦ rw some_fd refl
  | inr no_fd ↦ rw no_fd refl
]

-- Where `create` fails for a SyncReactor with an EXTReactor, because `malloc` gives NULL, it deletes the
-- EXTReactor and keeps the pointer to it, so `destroy` in the destructor accesses it again.
create-destroy :
    (x : Ext) (l : Life)
    → l.ext_reactor ≡ an_ext x
    → ltb_ℤ (pos 1) l.max_events ≡ true
    → (l' : Life) × (create false failure l ≡ returned failure l') × (destroy l' ≡ none)
unfolding create destroy destroy_with failed
create-destroy x l e h =
    let l' = close_epfd (record l { epev = false; ext_reactor = deleted_ext }) in
    (
      l',
      rw h (ap (λ p. failed (destroy_with p (record l { epev = false }))) e),
      ap (λ p. destroy_with p l')
          (ext_reactor-close_epfd (record l { epev = false; ext_reactor = deleted_ext })),
    )
