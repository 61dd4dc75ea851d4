-- ===== src/Symbols.antt =====
-- kernel/symbols.c: the name of the symbol that an address belongs to. The tables are generated, so that
-- they are arguments; a cursor is the list of the bytes from it on.
pub mod Search
mod Tests
use ultra.Prelude.{
  ℕ, zero, suc, ◌+◌, ◌-◌, ◌*◌, ◌/◌, ◌%◌, ◌^◌, Bool, true, false, not, ◌&&◌, Option, none, some,
  List, [], ◌∷◌, ◌++◌, ltb, leb, ◌==◌, if◌then◌else◌, length, get_elem?, drop, Outcome, done, fault,
  unfinished, ◌>>=◌,
}

-- The generated tables of kernel/include/private/symbols.h, and the bounds of the kernel's code.
pub record Tables : Type 0 where
  pub text_begin : ℕ
  pub text_end : ℕ
  pub compressed_names : List ℕ
  pub name_offsets : List ℕ
  pub token_table : List ℕ
  pub token_offsets : List ℕ
  pub relative_addresses : List ℕ
  pub base : ℕ

-- kernel/include/common/error.h
abbrev pub einval : ℕ
einval = 28

abbrev pub enosys : ℕ
enosys = 55

abbrev pub max_symbol_length : ℕ
max_symbol_length = 127 + 1

unfoldable pub address_is_kernel_code : Tables → ℕ → Bool
address_is_kernel_code t address = leb t.text_begin address && leb address t.text_end

-- The length and the cursor behind it.
unfoldable pub get_compressed_symbol_length : List ℕ → Outcome (ℕ × List ℕ)
get_compressed_symbol_length [] = fault
get_compressed_symbol_length (len ∷ cursor) =
    if ltb len 128
    then done (len, cursor)
    else elim cursor [ [] ↦ fault | next ∷ rest ↦ done (len % 128 + next * 2 ^ 7, rest) ]

-- The characters up to the terminating 0.
unfoldable pub token_at : List ℕ → Outcome (List ℕ)
token_at [] = fault
token_at (c ∷ table) =
    let later = token_at table >>= λ token. done (c ∷ token) in if c == 0 then done [] else later

abbrev pub read : List ℕ → ℕ → Outcome ℕ
read table i = elim (get_elem? table i) [ none ↦ fault | some x ↦ done x ]

-- The tokens of the next `len` bytes, one after the other.
unfoldable pub uncompress_loop : Tables → ℕ → List ℕ → Outcome (List ℕ)
uncompress_loop t zero cursor = done []
uncompress_loop t (suc len) [] = fault
uncompress_loop t (suc len) (byte ∷ cursor) = read t.token_offsets byte >>= λ offset.
    token_at (drop offset t.token_table) >>= λ token.
    uncompress_loop t len cursor >>= λ rest. done (token ++ rest)

-- The name, whose bytes and terminating 0 go to a buffer of `MAX_SYMBOL_LENGTH` bytes.
unfoldable pub uncompress_symbol : Tables → List ℕ → Outcome (List ℕ)
uncompress_symbol t compressed_cursor =
    get_compressed_symbol_length compressed_cursor >>= λ (len, cursor).
    uncompress_loop t len cursor >>= λ name.
    if ltb (length name) max_symbol_length then done name else fault

-- The loop of `get_compressed_symbol_name_cursor`: the cursor is read after the call that moves it.
unfoldable pub skip_names : ℕ → List ℕ → Outcome (List ℕ)
skip_names zero cursor = done cursor
skip_names (suc index) cursor =
    get_compressed_symbol_length cursor >>= λ (len, rest). skip_names index (drop len rest)

unfoldable pub get_compressed_symbol_name_cursor : Tables → ℕ → Outcome (List ℕ)
get_compressed_symbol_name_cursor t index = read t.name_offsets (index / 2 ^ 8) >>= λ offset.
    skip_names (index % 256) (drop offset t.compressed_names)

-- `while (end - begin > 1)`, on fuel: the final `begin`
unfoldable pub search_loop : ℕ → List ℕ → ℕ → ℕ → ℕ → Outcome ℕ
search_loop zero addresses rel_address begin end = unfinished
search_loop (suc fuel) addresses rel_address begin end = elim (ltb 1 (end - begin)) [
  | false ↦ done begin
  | true ↦ elim (get_elem? addresses (begin + (end - begin) / 2)) [
    | none ↦ fault
    | some address ↦ elim (leb address rel_address) [
      | true ↦ search_loop fuel addresses rel_address (begin + (end - begin) / 2) end
      | false ↦ search_loop fuel addresses rel_address begin (begin + (end - begin) / 2)
    ]
  ]
]

-- What `symbol_lookup_by_address` gives: an error, or the name and the offset within the symbol.
pub data Lookup : Type 0 where
  error : ℕ → Lookup
  found : List ℕ → ℕ → Lookup

-- `rel_address - symbol_base` of type u32
abbrev pub offset_within : ℕ → ℕ → ℕ
offset_within rel_address symbol_base = (rel_address + 2 ^ 32 - symbol_base) % 2 ^ 32

unfoldable pub name_of : Tables → ℕ → ℕ → Outcome Lookup
name_of t rel_address begin = read t.relative_addresses begin >>= λ symbol_base.
    get_compressed_symbol_name_cursor t begin >>= λ cursor.
    uncompress_symbol t cursor >>= λ name. done (found name (offset_within rel_address symbol_base))

unfoldable pub symbol_lookup_by_address : Tables → ℕ → Outcome Lookup
symbol_lookup_by_address t address =
    let count = length t.relative_addresses in
    let rel_address = (address + 2 ^ 64 - t.base) % 2 ^ 32 in
    if not (address_is_kernel_code t address)
    then done (error einval)
    else if count == 0
    then done (error enosys)
    else search_loop count t.relative_addresses rel_address 0 count >>= name_of t rel_address
