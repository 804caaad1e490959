-- ===== src/Singleton.antt =====
-- commonn/singleton.h: `Singleton::instance` in any number of threads, and `destroy`. Each access of a
-- static field, and each call of the lock, is one step, and what one thread writes the others read.
pub mod Once
pub mod Same
pub mod Again
use nf_server.Prelude.{
  ℕ, ◌≡◌, Bool, true, false, Option, none, some, List, [], ◌∷◌, ◌++◌, get_elem?, set, if◌then◌else◌,
}

-- Where a thread is in `instance`: before the first test, `lock`, the second test, `new`, the write of
-- `_initialized`, `unlock` and `return`; and what it returned, where `none` is NULL.
pub data Place : Type 0 where
  at_first at_lock at_second at_new at_flag at_unlock at_return : Place
  returned : Option ℕ → Place

-- The static fields; `created` holds what `new` gave, the oldest first.
pub record Singleton : Type 0 where
  pub instance_ptr : Option ℕ
  pub initialized : Bool
  pub locked : Bool
  pub created : List ℕ
  pub threads : List Place

abbrev pub put : ℕ → Place → Singleton → Singleton
put j p s = record s { threads = set s.threads j p }

-- A step of `instance` of thread `j`, where `new` gives `a`. `none`: the thread waits, or has returned.
unfoldable pub instance_at : ℕ → Place → ℕ → Singleton → Option Singleton
instance_at a at_first j s = some (put j (if s.initialized then at_return else at_lock) s)
instance_at a at_lock j s =
    if s.locked then none else some (put j at_second (record s { locked = true }))
instance_at a at_second j s = some (put j (if s.initialized then at_unlock else at_new) s)
instance_at a at_new j s =
    some (put j at_flag (record s { instance_ptr = some a; created = s.created ++ (a ∷ []) }))
instance_at a at_flag j s = some (put j at_unlock (record s { initialized = true }))
instance_at a at_unlock j s = some (put j at_return (record s { locked = false }))
instance_at a at_return j s = some (put j (returned s.instance_ptr) s)
instance_at a (returned v) j s = none

-- `destroy`.
abbrev pub destroy : Singleton → Singleton
destroy s = record s { instance_ptr = none }

-- What the threads do; `destroying` says whether `destroy` is called at all.
pub data Step (destroying : Bool) (s : Singleton) : Singleton → Type 0 where
  calls : Step destroying s (record s { threads = s.threads ++ (at_first ∷ []) })
  works :
      (a j : ℕ) (p : Place) (t : Singleton)
      → get_elem? s.threads j ≡ some p
      → instance_at a p j s ≡ some t
      → Step destroying s t
  destroys : destroying ≡ true → Step destroying s (destroy s)

pub data Steps (destroying : Bool) (s : Singleton) : Singleton → Type 0 where
  none_yet : Steps destroying s s
  and_then : {t u : Singleton} → Steps destroying s t → Step destroying t u → Steps destroying s u

-- The static fields as they are initialized.
abbrev pub unused : Singleton
unused = record {
  instance_ptr = none;
  initialized = false;
  locked = false;
  created = [];
  threads = [];
}
