-- ===== src/Examples/Nets.antt =====
-- Examples for net.cpp.
use nf_server.Prelude.{ℕ, ◌+◌, ◌≡◌, refl, List, [], ◌∷◌, ◌++◌, some, arith}
use nf_server.Prelude.Int.{pos}
use nf_server.Net.{Got, got}
use nf_server.Net.Transfer.{nothing, bytes}
use nf_server.Net.Rio.{rio_readline, IsText, no_text, text, Supplies, rio_readline_line}

hi-IsText : IsText (72 ∷ 105 ∷ [])
hi-IsText = text 72 (λ e. omega arith) (text 105 (λ e. omega arith) no_text)

abbrev stream : List Got
stream = got (105 ∷ 10 ∷ 33 ∷ []) ∷ []

stream-Supplies : Supplies [] stream (72 ∷ []) ((72 ∷ 105 ∷ []) ++ (10 ∷ 33 ∷ []))
unfolding Supplies
stream-Supplies = (stream, 105 ∷ 10 ∷ 33 ∷ [], refl, bytes 105 (10 ∷ 33 ∷ []) nothing, refl)

rio_readline_line_example :
    (b' : List ℕ) × (gs' : List Got) × (rio_readline stream (72 ∷ []) (2 + 7)
      ≡ some (record {
        ret = pos 3;
        st = pos 1;
        usrbuf = 72 ∷ 105 ∷ 10 ∷ 0 ∷ [];
        buffered = b';
        script = gs';
      }))
    × Supplies [] gs' b' (33 ∷ [])
rio_readline_line_example =
    rio_readline_line [] stream (72 ∷ []) (72 ∷ 105 ∷ []) (33 ∷ []) 5 hi-IsText stream-Supplies
