-- ===== src/Examples/Pools.antt =====
-- Examples for commonn/memCache.cpp.
use nf_server.Prelude.{ℕ, ◌*◌, ◌≡◌, refl, some, arith, inl}
use nf_server.MemCache.{lists, Pool, init}
use nf_server.MemCache.FreeLists.{Holds}
use nf_server.MemCache.Init.{filled, init_lem}

abbrev blank : Pool
blank = record { free_list = λ k. 0; link = λ a. 0 }

abbrev chunks : ℕ → ℕ
chunks s = s * 1000

init_lem_example : (p' : Pool) × (init chunks blank ≡ some p') × Holds p' (filled chunks lists)
init_lem_example =
    init_lem chunks (λ k h e. omega arith) (λ j k lt h. inl (omega arith)) blank (λ k. refl)
