-- ===== src/RingQueue/Fifo.antt =====
-- What the circular queue promises: a first-in first-out list of at most `bound` values.
use nf_server.Prelude.{ℕ, Option, none, some, List, [], ◌∷◌, ◌++◌, leb, if◌then◌else◌, length}
use nf_server.Prelude.Int.{ℤ, success, failure}

unfoldable pub push : ℕ → List ℕ → ℕ → ℤ × List ℕ
push bound xs x = if leb bound (length xs) then (failure, xs) else (success, xs ++ (x ∷ []))

unfoldable pub pop : List ℕ → ℤ × Option ℕ × List ℕ
pop [] = (failure, none, [])
pop (x ∷ xs) = (success, some x, xs)
