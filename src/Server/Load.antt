-- ===== src/Server/Load.antt =====
-- `NfSvr::init` on a file of settings: ConfigParser reads it and `init` takes its numbers.
use nf_server.Prelude.{◌≡◌, refl, ap, ◌∙◌, true, Option, none, some, List, []}
use nf_server.Prelude.Int.{ℤ}
use nf_server.Config.{
  Bytes, Section, Sections, find, get_item, get_section, get, Outcome, returned, parser_file,
}
use nf_server.Config.Tables.{Block, value_of}
use nf_server.Config.Print.{print, AreBlocks, parser_file-print}
use nf_server.Server.{Server, to_size, number, init}
use nf_server.Server.Key

get_item-get_section :
    (key name : Bytes) (m : Sections) → get_item key (get_section name m) ≡ get name key m
unfolding get_item get_section get find
get_item-get_section key name m = go (find name m)
  where
    go :
        (o : Option Section)
        → get_item key (elim o as (λ x. Section) [ none ↦ [] | some s ↦ s ])
          ≡ elim o as (λ x. Bytes) [ none ↦ [] | some s ↦ get_item key s ]
    go none = refl
    go (some s) = refl

-- A number that `init` takes from the section.
number-get_section :
    (atoi : Bytes → ℤ) (key name : Bytes) (bs : List Block) (m : Sections)
    → ((k : Bytes) → get name k m ≡ value_of name k bs)
    → number atoi key (get_section name m) ≡ to_size (atoi (value_of name key bs))
number-get_section atoi key name bs m same =
    ap (λ (v : Bytes). to_size (atoi v)) (get_item-get_section key name m ∙ same key)

-- Two results of one parse.
one_result : (o : Outcome) (m m' : Sections) → o ≡ returned true m → o ≡ returned true m' → m ≡ m'
one_result o m m' e e' = cc

-- From a file printed from sections that the format can hold, which is accepted, `init` on the section of
-- any name sets the port, the four times, the type and the number of sessions to what `atoi` makes of the
-- last value of the key for each in the last section of that name, or of the empty string where there is
-- none, as a `size_t`.
pub init-parser_file :
    (atoi : Bytes → ℤ) (bs : List Block) (name : Bytes) (s : Server)
    → AreBlocks bs
    → (m : Sections) × (parser_file (some (print bs)) ≡ returned true m)
      × ((init atoi (get_section name m) s).1.port
          ≡ to_size (atoi (value_of name Key.listen_port bs)))
      × ((init atoi (get_section name m) s).1.connect_to
          ≡ to_size (atoi (value_of name Key.connect_to bs)))
      × ((init atoi (get_section name m) s).1.read_to
          ≡ to_size (atoi (value_of name Key.read_to bs)))
      × ((init atoi (get_section name m) s).1.write_to
          ≡ to_size (atoi (value_of name Key.write_to bs)))
      × ((init atoi (get_section name m) s).1.session_to
          ≡ to_size (atoi (value_of name Key.session_to bs)))
      × ((init atoi (get_section name m) s).1.svr_type
          ≡ to_size (atoi (value_of name Key.svr_type bs)))
      × ((init atoi (get_section name m) s).1.max_session
          ≡ to_size (atoi (value_of name Key.sock_num bs)))
unfolding init
init-parser_file atoi bs name s good =
    let (m, parsed, _) = parser_file-print bs name Key.listen_port good in
    let same : (k : Bytes) → get name k m ≡ value_of name k bs = λ k.
      let (m', parsed', value) = parser_file-print bs name k good in
      ap (get name k) (one_result (parser_file (some (print bs))) m m' parsed parsed') ∙ value in
    let set : (k : Bytes)
        → number atoi k (get_section name m) ≡ to_size (atoi (value_of name k bs)) =
      λ k. number-get_section atoi k name bs m same in
    (
      m,
      parsed,
      set Key.listen_port,
      set Key.connect_to,
      set Key.read_to,
      set Key.write_to,
      set Key.session_to,
      set Key.svr_type,
      set Key.sock_num,
    )
