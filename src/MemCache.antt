-- ===== src/MemCache.antt =====
-- commonn/memCache.h and commonn/memCache.cpp: the pool allocator `Allocate`, 16 free lists of
-- blocks of 256, 512, ... 4096 bytes. A function that calls `malloc` takes what it returns as an
-- argument (`got`, with `null` for a failure). Each operation runs under the mutex of its list, so
-- it is one step; logging is left out.
pub mod Sizes
pub mod Chains
pub mod Blocks
pub mod FreeLists
pub mod Init
use nf_server.Prelude.{
  ℕ, zero, suc, ◌+◌, ◌-◌, ◌*◌, ◌/◌, ◌%◌, ◌^◌, Bool, ◌&&◌, Option, none, some, leb, ltb, ◌==◌,
  if◌then◌else◌, update,
}

abbrev pub null : ℕ
null = 0

-- The enumerators ALIGN, MAX_BYTES, LISTS and CHUNK_NODE.
abbrev pub align : ℕ
align = 256

abbrev pub max_bytes : ℕ
max_bytes = 4096

abbrev pub lists : ℕ
lists = max_bytes / align

abbrev pub chunk_node : ℕ
chunk_node = 20

-- `size_t` arithmetic wraps at 2^64.
pub freelist_index : ℕ → ℕ
freelist_index n = ((n + align - 1) % 2 ^ 64 / align + 2 ^ 64 - 1) % 2 ^ 64

pub round_up : ℕ → ℕ
round_up n = (n + align - 1) % 2 ^ 64 / align * align

-- The heads of the free lists, and the `free_list_link` that memory holds at each address.
pub record Pool : Type 0 where
  pub free_list : ℕ → ℕ
  pub link : ℕ → ℕ

-- `crashed` is a write through a null pointer.
pub data Outcome : Type 0 where
  returned : ℕ → Pool → Outcome
  crashed : Outcome

-- `memset(p, '\0', len)`, as far as links go.
abbrev pub clear_links : ℕ → ℕ → (ℕ → ℕ) → ℕ → ℕ
clear_links p len link a = if leb p a && ltb a (p + len) then 0 else link a

-- The `for` loop of `refill` with `k` rounds left before the one that ends the list.
pub thread_nodes : ℕ → ℕ → ℕ → (ℕ → ℕ) → ℕ → ℕ
thread_nodes zero curr n link = update link curr null
thread_nodes (suc k) curr n link = thread_nodes k (curr + n) n (update link curr (curr + n))

pub refill : ℕ → ℕ → Pool → Outcome
refill got n p =
    if n == 0
    then returned null p
    else if got == null
    then crashed
    else returned got (record {
      free_list = update p.free_list (freelist_index n) (got + n);
      link = thread_nodes (chunk_node - 2) (got + n) n (clear_links got (chunk_node * n) p.link);
    })

-- The blocks above MAX_BYTES come from `malloc` itself.
pub allocate : ℕ → ℕ → Pool → Outcome
allocate got n p =
    let size = round_up n in
    let index = freelist_index size in
    let head = p.free_list index in
    if n == 0
    then returned null p
    else if ltb max_bytes size
    then (if got == null
        then crashed
        else returned got (record p { link = clear_links got size p.link }))
    else if head == null
    then refill got size p
    else returned head (record p { free_list = update p.free_list index (p.link head) })

-- `free` takes the large blocks back.
pub deallocate : ℕ → ℕ → Pool → Pool
deallocate q n p =
    let size = round_up n in
    let index = freelist_index size in
    if n == 0 then p else if q == null then p else if ltb max_bytes size then p else record {
      free_list = update p.free_list index q;
      link = update p.link q (p.free_list index);
    }

-- The blocks are pushed in front of what `refill` left of their chunk. `got` gives the chunk of each
-- size.
pub init_list : (ℕ → ℕ) → ℕ → Pool → Option Pool
init_list got size p = elim (refill (got size) size p) [
  | crashed ↦ none
  | returned tmp p' ↦ some (record {
    free_list = update p'.free_list (freelist_index size) tmp;
    link = update p'.link tmp (p'.free_list (freelist_index size));
  })
]

-- The loop of `init` with `k` rounds left, at `i`.
pub init_lists : ℕ → ℕ → (ℕ → ℕ) → Pool → Option Pool
init_lists zero i got p = some p
init_lists (suc k) i got p = elim (init_list got i p) [
  | none ↦ none
  | some p' ↦ init_lists k (i + align) got p'
]

pub init : (ℕ → ℕ) → Pool → Option Pool
init got p = init_lists lists align got p
