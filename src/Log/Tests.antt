-- ===== src/Log/Tests.antt =====
-- Runs of messages and of the dump of a frame.
use ultra.Prelude.{
  ◌≡◌, ◌%◌, ◌+◌, ◌-◌, ◌^◌, refl, arith, true, none, some, [], ◌∷◌, ◌==◌, if◌then◌else◌, done,
  Returns,
}
use ultra.Console.{Consoles}
use ultra.Console.Register.{Lists}
use ultra.Format.Buffer.{padding}
use ultra.Format.Spec.{chars_arg}
use ultra.Format.Prints.{chars, percent}
use ultra.Log.{Log, print, do_dump_frame}
use ultra.Log.Lines.{Logged, frame_line, print-Logged, do_dump_frame-Logged}
use ultra.Symbols.{
  Tables, found, symbol_lookup_by_address, search_loop, name_of, uncompress_symbol, uncompress_loop,
  token_at, skip_names, get_compressed_symbol_name_cursor, get_compressed_symbol_length,
  address_is_kernel_code,
}

-- Symbols ab at 0x1000 and ba at 0x1008.
abbrev two_symbols : Tables
two_symbols = record {
  text_begin = 4096;
  text_end = 8192;
  compressed_names = 2 ∷ 0 ∷ 1 ∷ 2 ∷ 1 ∷ 0 ∷ [];
  name_offsets = 0 ∷ [];
  token_table = 97 ∷ 0 ∷ 98 ∷ 0 ∷ [];
  token_offsets = 0 ∷ 2 ∷ [];
  relative_addresses = 0 ∷ 8 ∷ [];
  base = 4096;
}

-- Console 2, then console 1.
abbrev two_consoles : Consoles
two_consoles = record { consoles = some 2; next = λ con. if con == 2 then some 1 else none }

two_consoles-Lists : Lists two_consoles (2 ∷ 1 ∷ [])
two_consoles-Lists = record {
  chain = (refl, (refl, refl));
  distinct = (((λ e. omega arith), tt), (tt, tt));
}

-- The log before the first message.
abbrev empty_log : Log
empty_log = record { log_buf = padding 256 0; writes = [] }

-- A message with the level 6.
print-Logged_example :
    Returns
      (print 3 two_consoles empty_log
        (some (1 ∷ 54 ∷ 53 ∷ 37 ∷ 37 ∷ 32 ∷ 37 ∷ 115 ∷ 10 ∷ []))
        (chars_arg (some (111 ∷ 102 ∷ 0 ∷ [])) ∷ []))
      (Logged empty_log
        (2 ∷ 1 ∷ [])
        ((53 ∷ [], percent) ∷ (32 ∷ [], chars (111 ∷ 102 ∷ [])) ∷ [])
        (10 ∷ []))
print-Logged_example =
    print-Logged 3 two_consoles (2 ∷ 1 ∷ []) two_consoles-Lists (omega arith)
      ((53 ∷ [], percent) ∷ (32 ∷ [], chars (111 ∷ 102 ∷ [])) ∷ []) (1 ∷ 54 ∷ []) (10 ∷ [])
      empty_log ((refl, tt), tt, ((refl, tt), (omega arith, (omega arith, tt)), (refl, tt))) refl
      (omega arith) refl

found_test :
    symbol_lookup_by_address two_symbols ((4108 + (2 ^ 64 - 1)) % 2 ^ 64)
    ≡ done (found (98 ∷ 97 ∷ []) 3)
unfolding symbol_lookup_by_address search_loop name_of uncompress_symbol uncompress_loop token_at
    skip_names get_compressed_symbol_name_cursor get_compressed_symbol_length address_is_kernel_code
found_test = refl

do_dump_frame-Logged_example :
    Returns
      (do_dump_frame two_symbols 3 two_consoles (record { depth = 1; log = empty_log }) 4108 true)
      (λ state'.
        (state'.depth ≡ 2)
        × Logged empty_log (2 ∷ 1 ∷ []) (frame_line 1 (98 ∷ 97 ∷ []) 3) (10 ∷ []) (state'.log))
do_dump_frame-Logged_example =
    do_dump_frame-Logged 3 two_consoles (2 ∷ 1 ∷ []) two_consoles-Lists (omega arith) two_symbols
      (record { depth = 1; log = empty_log }) 4108 3 true (98 ∷ 97 ∷ []) found_test
      (omega arith, (omega arith, tt)) (omega arith) refl
