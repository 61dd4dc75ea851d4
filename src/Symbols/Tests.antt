-- ===== src/Symbols/Tests.antt =====
-- Runs of the symbol lookup.
use ultra.Prelude.{◌≡◌, refl, [], ◌∷◌, done, Returns, arith}
use ultra.Symbols.{
  Tables, found, symbol_lookup_by_address, search_loop, name_of, uncompress_symbol, uncompress_loop,
  token_at, skip_names, get_compressed_symbol_name_cursor, get_compressed_symbol_length,
  address_is_kernel_code,
}
use ultra.Symbols.Search.{IsLastBelow, search_loop-IsLastBelow}

-- Symbols ab at 0x1000 and ba at 0x1008.
abbrev two_symbols : Tables
two_symbols = record {
  text_begin = 4096;
  text_end = 8192;
  compressed_names = 2 ∷ 0 ∷ 1 ∷ 2 ∷ 1 ∷ 0 ∷ [];
  name_offsets = 0 ∷ [];
  token_table = 97 ∷ 0 ∷ 98 ∷ 0 ∷ [];
  token_offsets = 0 ∷ 2 ∷ [];
  relative_addresses = 0 ∷ 8 ∷ [];
  base = 4096;
}

runs : Unit {0}
unfolding symbol_lookup_by_address search_loop name_of uncompress_symbol uncompress_loop token_at
    skip_names get_compressed_symbol_name_cursor get_compressed_symbol_length address_is_kernel_code
runs = tt

symbol_lookup_by_address_test :
    symbol_lookup_by_address two_symbols 4107 ≡ done (found (98 ∷ 97 ∷ []) 3)
unfolding runs
symbol_lookup_by_address_test = refl

search_loop-IsLastBelow_example :
    Returns (search_loop 3 (0 ∷ 8 ∷ 20 ∷ []) 11 0 3) (IsLastBelow (0 ∷ 8 ∷ 20 ∷ []) 11)
search_loop-IsLastBelow_example =
    search_loop-IsLastBelow 0 (0 ∷ 8 ∷ 20 ∷ []) 11 (omega arith, (omega arith, (omega arith, tt)))
      (omega arith)
