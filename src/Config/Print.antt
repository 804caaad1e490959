-- ===== src/Config/Print.antt =====
-- A file written from sections and items is read back.
use nf_server.Prelude.{
  ℕ, ◌≡◌, refl, ap, ◌∙◌, Bool, true, false, ◌||◌, Option, none, some, List, [], ◌∷◌, ◌++◌, arith,
  ◌==◌, if◌then◌else◌, has,
}
use nf_server.Config.{
  Bytes, Sections, put, set_item, lines, chomp, before_bracket, split_item, Step, go_on, read_item,
  read_section, read_content, read_line, Outcome, returned, null_written, read_lines, parser_file,
  get,
}
use nf_server.Config.Tables.{Block, load_items, load, value_of, get-load}

-- An item, and a section, as lines of a file.
abbrev pub item_line : Bytes × Bytes → Bytes
item_line (k, v) = k ++ (b'=' ∷ v)

abbrev pub print_items : List (Bytes × Bytes) → Bytes → Bytes
print_items [] rest = rest
print_items (i ∷ r) rest = item_line i ++ (b'\n' ∷ print_items r rest)

abbrev pub header_line : Bytes → Bytes
header_line name = b'[' ∷ (name ++ (b']' ∷ []))

abbrev pub print : List Block → Bytes
print [] = []
print (b ∷ bs) = header_line b.name ++ (b'\n' ∷ print_items b.items (print bs))

-- The first byte makes a line a comment or a header.
abbrev pub is_marked : Bytes → Bool
is_marked [] = false
is_marked (c ∷ cs) = (c == b'#') || (c == b'[')

-- An item that the format can hold: the key has no '=' and does not begin like a comment or a header,
-- neither part has a line end, and the value does not end in a carriage return.
pub record IsItem (i : Bytes × Bytes) : Type 0 where
  pub one_sign : has b'=' i.0 ≡ false
  pub key_line : has b'\n' i.0 ≡ false
  pub value_line : has b'\n' i.1 ≡ false
  pub unmarked : is_marked i.0 ≡ false
  pub trimmed : chomp i.1 ≡ i.1

pub data AreItems : List (Bytes × Bytes) → Type 0 where
  no_items : AreItems []
  one_item :
      {i : Bytes × Bytes} {r : List (Bytes × Bytes)} → IsItem i → AreItems r → AreItems (i ∷ r)

-- Sections that the format can hold.
pub data AreBlocks : List Block → Type 0 where
  no_blocks : AreBlocks []
  one_block :
      {b : Block} {bs : List Block}
      → has b'\n' b.name ≡ false
      → AreItems b.items
      → AreBlocks bs
      → AreBlocks (b ∷ bs)

lines-append : (l rest : Bytes) → has b'\n' l ≡ false → lines (l ++ (b'\n' ∷ rest)) ≡ l ∷ lines rest
unfolding lines
lines-append [] rest h = first (lines rest)
  where
    first :
        (ls : List Bytes)
        → elim ls as (λ x. List Bytes) [
          | [] ↦ if b'\n' == b'\n' then [] ∷ [] else (b'\n' ∷ []) ∷ []
          | l ∷ ls' ↦ if b'\n' == b'\n' then [] ∷ l ∷ ls' else (b'\n' ∷ l) ∷ ls'
        ]
          ≡ [] ∷ ls
    first [] = refl
    first (l ∷ ls') = refl
lines-append (c ∷ l) rest h =
    let other : (c == b'\n') ≡ false = ground arith in
    let ih = lines-append l rest (ground arith) in rw ih (rw other refl)

has-append :
    (c : ℕ) (xs ys : Bytes) → has c xs ≡ false → has c ys ≡ false → has c (xs ++ ys) ≡ false
has-append c [] ys h k = k
has-append c (x ∷ xs) ys h k = ground (arith, has-append c xs ys (ground arith) k)

split_item-append : (k v : Bytes) → has b'=' k ≡ false → split_item (k ++ (b'=' ∷ v)) ≡ some (k, v)
unfolding split_item
split_item-append [] v h = first (split_item v)
  where
    first :
        (o : Option (Bytes × Bytes))
        → elim o as (λ x. Option (Bytes × Bytes)) [
          | none ↦ if b'=' == b'=' then some ([], v) else none
          | some (k, w) ↦ if b'=' == b'=' then some ([], v) else some (b'=' ∷ k, w)
        ]
          ≡ some ([], v)
    first none = refl
    first (some (k, w)) = refl
split_item-append (c ∷ k) v h =
    let other : (c == b'=') ≡ false = ground arith in
    ap
      (λ (o : Option (Bytes × Bytes)). elim o as (λ x. Option (Bytes × Bytes)) [
        | none ↦ if c == b'=' then some ([], k ++ (b'=' ∷ v)) else none
        | some (j, w) ↦ if c == b'=' then some ([], k ++ (b'=' ∷ v)) else some (c ∷ j, w)
      ])
      (split_item-append k v (ground arith))
    ∙ rw other refl

chomp-append :
    (xs : Bytes) (c : ℕ) (ys : Bytes)
    → chomp (c ∷ ys) ≡ c ∷ ys
    → chomp (xs ++ (c ∷ ys)) ≡ xs ++ (c ∷ ys)
unfolding chomp
chomp-append [] c ys h = h
chomp-append (x ∷ []) c ys h = ap (λ (l : Bytes). x ∷ l) h
chomp-append (x ∷ y ∷ xs) c ys h = ap (λ (l : Bytes). x ∷ l) (chomp-append (y ∷ xs) c ys h)

chomp-sign : (v : Bytes) → chomp v ≡ v → chomp (b'=' ∷ v) ≡ b'=' ∷ v
unfolding chomp
chomp-sign [] h = refl
chomp-sign (d ∷ ds) h = ap (λ (l : Bytes). b'=' ∷ l) h

before_bracket-append : (name : Bytes) → before_bracket (name ++ (b']' ∷ [])) ≡ some name
unfolding before_bracket
before_bracket-append [] = refl
before_bracket-append (c ∷ []) = refl
before_bracket-append (c ∷ d ∷ name) =
    ap (λ (o : Option Bytes). elim o as (λ x. Option Bytes) [ none ↦ none | some s ↦ some (c ∷ s) ])
      (before_bracket-append (d ∷ name))

read_line-item :
    (c : ℕ) (cs k v : Bytes) (m : Sections) (current : Option Bytes)
    → (c == b'#') ≡ false
    → (c == b'[') ≡ false
    → chomp (c ∷ cs) ≡ c ∷ cs
    → split_item (c ∷ cs) ≡ some (k, v)
    → read_line (c ∷ cs) m current ≡ read_item (some (k, v)) m current
unfolding read_line read_content
read_line-item c cs k v m current hash bracket whole split =
    rw hash (
      ap (λ l. read_content l m current) whole ∙ rw bracket (ap (λ o. read_item o m current) split))

read_line-item_line :
    (i : Bytes × Bytes) (m : Sections) (current : Option Bytes)
    → IsItem i
    → read_line (item_line i) m current ≡ read_item (some (i.0, i.1)) m current
read_line-item_line ([], v) m current p =
    read_line-item b'=' v [] v m current refl refl (chomp-sign v p.trimmed)
      (split_item-append [] v refl)
read_line-item_line (c ∷ k, v) m current p =
    read_line-item c (k ++ (b'=' ∷ v)) (c ∷ k) v m current (ground (arith, p.unmarked))
      (ground (arith, p.unmarked)) (chomp-append (c ∷ k) b'=' v (chomp-sign v p.trimmed))
      (split_item-append (c ∷ k) v p.one_sign)

read_line-header_line :
    (name : Bytes) (m : Sections) (current : Option Bytes)
    → read_line (header_line name) m current ≡ go_on (put name [] m) (some name)
unfolding read_line read_content read_section
read_line-header_line name m current =
    ap (λ l. read_content l m current) (chomp-append (b'[' ∷ name) b']' [] (bracket_stays))
    ∙ ap (λ o. read_section o m) (before_bracket-append name)
  where
    bracket_stays : chomp (b']' ∷ []) ≡ b']' ∷ []
    bracket_stays = unfold chomp in refl

read_lines-step :
    (l : Bytes) (ls : List Bytes) (m m' : Sections) (current current' : Option Bytes)
    → read_line l m current ≡ go_on m' current'
    → read_lines (l ∷ ls) m current ≡ read_lines ls m' current'
unfolding read_lines
read_lines-step l ls m m' current current' e =
    ap
      (λ (s : Step). elim s as (λ x. Outcome) [
        | go_on n c ↦ read_lines ls n c
        | Step.rejected ↦ returned false m
        | Step.crashed ↦ null_written
      ])
      e

item_line-newline : (i : Bytes × Bytes) → IsItem i → has b'\n' (item_line i) ≡ false
item_line-newline (k, v) p = has-append b'\n' k (b'=' ∷ v) p.key_line (ground (arith, p.value_line))

read_items :
    (r : List (Bytes × Bytes)) (rest : Bytes) (m : Sections) (name : Bytes)
    → AreItems r
    → read_lines (lines (print_items r rest)) m (some name)
      ≡ read_lines (lines rest) (load_items name r m) (some name)
unfolding load_items read_item
read_items [] rest m name no_items = refl
read_items ((k, v) ∷ r) rest m name (one_item p more) =
    let i : Bytes × Bytes = (k, v) in
    ap (λ ls. read_lines ls m (some name))
      (lines-append (item_line i) (print_items r rest) (item_line-newline i p))
    ∙ read_lines-step (item_line i) (lines (print_items r rest)) m (set_item name k v m) (some name)
        (some name) (read_line-item_line i m (some name) p)
    ∙ read_items r rest (set_item name k v m) name more

read_blocks :
    (bs : List Block) (m : Sections) (current : Option Bytes)
    → AreBlocks bs
    → read_lines (lines (print bs)) m current ≡ returned true (load bs m)
unfolding load lines read_lines
read_blocks [] m current no_blocks = refl
read_blocks (b ∷ bs) m current (one_block h items more) =
    let rest = print_items b.items (print bs) in
    ap (λ ls. read_lines ls m current)
      (lines-append (header_line b.name) rest
        (has-append b'\n' (b'[' ∷ b.name) (b']' ∷ []) (ground arith) refl))
    ∙ read_lines-step (header_line b.name) (lines rest) m (put b.name [] m) current (some b.name)
        (read_line-header_line b.name m current)
    ∙ read_items b.items (print bs) (put b.name [] m) b.name items
    ∙ read_blocks bs (load_items b.name b.items (put b.name [] m)) (some b.name) more

-- A file printed from sections that the format can hold is accepted, and `get` then gives for every
-- section name and key the value of the last item with the key in the last section with the name, or
-- the empty string where there is none.
pub parser_file-print :
    (bs : List Block) (name key : Bytes)
    → AreBlocks bs
    → (m : Sections) × (parser_file (some (print bs)) ≡ returned true m)
      × (get name key m ≡ value_of name key bs)
unfolding parser_file
parser_file-print bs name key good = (load bs [], read_blocks bs [] none good, get-load name key bs)

-- A file whose first line is an item writes it through the NULL pointer to the current section, whatever
-- follows.
parser_file-headless :
    (i : Bytes × Bytes) (rest : Bytes)
    → IsItem i
    → parser_file (some (item_line i ++ (b'\n' ∷ rest))) ≡ null_written
unfolding parser_file read_lines read_item
parser_file-headless (k, v) rest p =
    let i : Bytes × Bytes = (k, v) in
    ap (λ ls. read_lines ls [] none) (lines-append (item_line i) rest (item_line-newline i p))
    ∙ ap
        (λ (s : Step). elim s as (λ x. Outcome) [
          | go_on n c ↦ read_lines (lines rest) n c
          | Step.rejected ↦ returned false []
          | Step.crashed ↦ null_written
        ])
        (read_line-item_line i [] none p)
