-- ===== src/Config.antt =====
-- commonn/configParser.h and commonn/configParser.cpp: sections of items, read from a file of lines. A
-- string is the list of its bytes. A `std::map` is a list of pairs with no key twice; the pointer to the
-- current section is the section's name, since a map's nodes stay where they are. `scan` only prints.
pub mod Tables
pub mod Print
use nf_server.Prelude.{
  ℕ, Bool, true, false, not, ◌&&◌, ◌||◌, Option, none, some, List, [], ◌∷◌, ◌++◌, ◌==◌,
  if◌then◌else◌,
}

abbrev pub Bytes : Type 0
Bytes = List ℕ

unfoldable pub same : Bytes → Bytes → Bool
same [] [] = true
same [] (y ∷ ys) = false
same (x ∷ xs) [] = false
same (x ∷ xs) (y ∷ ys) = (x == y) && same xs ys

-- `std::map<std::string, V>`: `find`, and `m[key] = value`.
module _ {V : Type 0} where
  unfoldable pub find : Bytes → List (Bytes × V) → Option V
  find k [] = none
  find k ((j, v) ∷ m) = if same k j then some v else find k m

  unfoldable pub put : Bytes → V → List (Bytes × V) → List (Bytes × V)
  put k v [] = (k, v) ∷ []
  put k v ((j, w) ∷ m) = if same k j then (k, v) ∷ m else (j, w) ∷ put k v m

abbrev pub Section : Type 0
Section = List (Bytes × Bytes)

abbrev pub Sections : Type 0
Sections = List (Bytes × Section)

-- `Section::get`.
unfoldable pub get_item : Bytes → Section → Bytes
get_item key s = elim (find key s) [ none ↦ [] | some v ↦ v ]

-- `ConfigParser::get` of a section and of an item.
unfoldable pub get_section : Bytes → Sections → Section
get_section name m = elim (find name m) [ none ↦ [] | some s ↦ s ]

unfoldable pub get : Bytes → Bytes → Sections → Bytes
unfolding get_item
get name key m = elim (find name m) [ none ↦ [] | some s ↦ get_item key s ]

-- `ConfigParser::set`.
unfoldable pub set_item : Bytes → Bytes → Bytes → Sections → Sections
unfolding get_section
set_item name key value m = put name (put key value (get_section name m)) m

-- `std::getline` until `peek` gives EOF.
unfoldable pub lines : Bytes → List Bytes
lines [] = []
lines (c ∷ cs) = elim (lines cs) [
  | [] ↦ if c == b'\n' then [] ∷ [] else (c ∷ []) ∷ []
  | l ∷ ls ↦ if c == b'\n' then [] ∷ l ∷ ls else (c ∷ l) ∷ ls
]

-- The line without a '\n' or '\r' at its end.
unfoldable pub chomp : Bytes → Bytes
chomp [] = []
chomp (c ∷ []) = if (c == b'\n') || (c == b'\r') then [] else c ∷ []
chomp (c ∷ d ∷ cs) = c ∷ chomp (d ∷ cs)

-- The bytes before a ']' at the end.
unfoldable pub before_bracket : Bytes → Option Bytes
before_bracket [] = none
before_bracket (c ∷ []) = if c == b']' then some [] else none
before_bracket (c ∷ d ∷ cs) = elim (before_bracket (d ∷ cs)) [ none ↦ none | some s ↦ some (c ∷ s) ]

-- `find('=')`, with the key and the value as `substr` cuts them.
unfoldable pub split_item : Bytes → Option (Bytes × Bytes)
split_item [] = none
split_item (c ∷ cs) = elim (split_item cs) as (λ o. Option (Bytes × Bytes)) [
  | none ↦ if c == b'=' then some ([], cs) else none
  | some (k, v) ↦ if c == b'=' then some ([], cs) else some (c ∷ k, v)
]

-- A line leads on with the sections and the current one, makes `parser_file` return false, or sets an
-- item through the NULL pointer.
pub data Step : Type 0 where
  go_on : Sections → Option Bytes → Step
  rejected : Step
  crashed : Step

unfoldable pub read_item : Option (Bytes × Bytes) → Sections → Option Bytes → Step
unfolding set_item
read_item none m current = rejected
read_item (some (k, v)) m none = crashed
read_item (some (k, v)) m (some name) = go_on (set_item name k v m) (some name)

unfoldable pub read_section : Option Bytes → Sections → Step
read_section none m = rejected
read_section (some name) m = go_on (put name [] m) (some name)

-- A line that is neither empty nor a comment, without its line end.
unfoldable pub read_content : Bytes → Sections → Option Bytes → Step
unfolding read_item read_section
read_content [] m current = read_item none m current
read_content (c ∷ cs) m current =
    if c == b'['
    then read_section (before_bracket cs) m
    else read_item (split_item (c ∷ cs)) m current

unfoldable pub read_line : Bytes → Sections → Option Bytes → Step
unfolding read_content
read_line [] m current = go_on m current
read_line (c ∷ cs) m current =
    if c == b'#' then go_on m current else read_content (chomp (c ∷ cs)) m current

-- What `parser_file` returns with the sections that it leaves, or a crash.
pub data Outcome : Type 0 where
  returned : Bool → Sections → Outcome
  null_written : Outcome

unfoldable pub read_lines : List Bytes → Sections → Option Bytes → Outcome
read_lines [] m current = returned true m
read_lines (l ∷ ls) m current = elim (read_line l m current) [
  | go_on m' current' ↦ read_lines ls m' current'
  | rejected ↦ returned false m
  | crashed ↦ null_written
]

-- `parser_file` of a file that cannot be opened, or of one with the bytes.
unfoldable pub parser_file : Option Bytes → Outcome
unfolding lines read_lines
parser_file none = returned false []
parser_file (some content) = read_lines (lines content) [] none
