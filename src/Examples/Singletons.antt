-- ===== src/Examples/Singletons.antt =====
-- Examples for commonn/singleton.h.
use nf_server.Prelude.{ℕ, ◌≡◌, refl, true, false, Option, none, some, [], ◌∷◌, arith}
use nf_server.Singleton.{
  at_first, at_lock, at_second, at_new, at_flag, at_unlock, at_return, returned, Singleton, destroy,
  instance_at, calls, works, Steps, none_yet, and_then, unused,
}
use nf_server.Singleton.Same.{created-returned}
use nf_server.Singleton.Again.{instance-destroy}

abbrev got_one : Singleton
got_one = record {
  instance_ptr = some 64;
  initialized = true;
  locked = false;
  created = 64 ∷ [];
  threads = returned (some 64) ∷ [];
}

gets_one : Steps false unused got_one
unfolding instance_at
gets_one =
    let locked =
      and_then (and_then (and_then none_yet calls) (works 0 0 at_first _ refl refl))
        (works 0 0 at_lock _ refl refl) in
    let made =
      and_then
        (and_then (and_then locked (works 0 0 at_second _ refl refl))
          (works 64 0 at_new _ refl refl))
        (works 0 0 at_flag _ refl refl) in
    and_then (and_then made (works 0 0 at_unlock _ refl refl)) (works 0 0 at_return _ refl refl)

created-returned_example : (a : ℕ) × (some 64 ≡ some a) × (got_one.created ≡ a ∷ [])
created-returned_example = created-returned {s = got_one} 0 (some 64) gets_one refl

abbrev got_none : Singleton
got_none = record {
  instance_ptr = none;
  initialized = true;
  locked = false;
  created = 64 ∷ [];
  threads = returned (some 64) ∷ returned none ∷ [];
}

abbrev nothing : Option ℕ
nothing = none

gets_none : Steps false (destroy got_one) got_none
unfolding instance_at
gets_none =
    and_then (and_then (and_then none_yet calls) (works 0 1 at_first _ refl refl))
      (works 0 1 at_return _ refl refl)

instance-destroy_example :
    (nothing ≡ none) × (got_none.instance_ptr ≡ none) × (got_none.initialized ≡ true)
instance-destroy_example =
    instance-destroy {s = got_one} {t = got_none} 1 nothing gets_one refl gets_none (omega arith)
      refl
