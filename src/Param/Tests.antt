-- ===== src/Param/Tests.antt =====
-- Runs of the parser of the command line.
use ultra.Param.Get.{param_get_u64, Got, param_get_u64-Got}
use ultra.Prelude.{◌≡◌, ◌≤◌, refl, true, false, List, [], ◌∷◌, ◌++◌, length, done, Returns, arith}
use ultra.Text.Ctype.{isspace, is_char_of_type}
use ultra.Text.Strings.{str_starts_with}
use ultra.Param.{
  Param, number, truth, State, cmdline_trim, cmdline_parse, parse_loop, handle, g_param_u8_ops,
  g_param_bool_ops,
}
use ultra.Param.Finish.{cmdline_parse-returns}
use ultra.Param.Tokens.{Item, IsPlain, line, double_dash}
use ultra.Param.Line.{AreItems, handle_all, cmdline_parse-line}
use ultra.Param.Quoted.{parse_loop-quoted}

-- Parameters a_b and c.
abbrev two_params : List Param
two_params =
    record { name = 97 ∷ 95 ∷ 98 ∷ []; ops = g_param_u8_ops; value = 0 }
    ∷ record { name = 99 ∷ []; ops = g_param_bool_ops; value = 1 }
    ∷ []

abbrev fresh : State
fresh = record { variables = number 0 ∷ truth false ∷ []; unknown = [] }

-- a-b=7 and c
abbrev settings : List Item
settings =
    record { key = 97 ∷ 45 ∷ 98 ∷ []; value = 55 ∷ [] } ∷ record { key = 99 ∷ []; value = [] } ∷ []

characters : Unit {0}
unfolding isspace is_char_of_type str_starts_with
characters = tt

settings-AreItems : AreItems settings
unfolding characters
settings-AreItems = (
  record {
    nonempty = omega arith;
    plain = (
      refl,
      (λ e. omega arith),
      refl,
      (refl, (λ e. omega arith), refl, (refl, (λ e. omega arith), refl, tt)),
    );
    unspaced = (refl, tt);
    unquoted = λ e. omega arith;
  },
  (
    record {
      nonempty = omega arith;
      plain = (refl, (λ e. omega arith), refl, tt);
      unspaced = tt;
      unquoted = tt;
    },
    tt,
  ),
)

c-IsPlain : IsPlain (99 ∷ [])
unfolding characters
c-IsPlain = (refl, (λ e. omega arith), refl, tt)

cmdline_parse-returns_example :
    Returns (cmdline_parse two_params true (97 ∷ 61 ∷ 34 ∷ []) fresh) (λ r. length r.0 ≤ 3)
cmdline_parse-returns_example = cmdline_parse-returns two_params true (97 ∷ 61 ∷ 34 ∷ []) fresh

cmdline_parse-line_example :
    cmdline_parse two_params true (line settings (double_dash ++ (32 ∷ 120 ∷ []))) fresh
    ≡ done (cmdline_trim (32 ∷ 120 ∷ []), handle_all two_params true settings fresh)
cmdline_parse-line_example =
    cmdline_parse-line two_params true settings (32 ∷ 120 ∷ []) fresh settings-AreItems

parse_loop-quoted_example :
    parse_loop 5 two_params true ((99 ∷ []) ++ (61 ∷ 34 ∷ ((49 ∷ []) ++ (34 ∷ 32 ∷ [])))) fresh
    ≡ parse_loop 3 two_params true
        (cmdline_trim (32 ∷ []))
        (handle two_params true (34 ∷ []) [] (handle two_params true (99 ∷ []) (49 ∷ []) fresh))
parse_loop-quoted_example =
    parse_loop-quoted two_params true 3 (99 ∷ []) (49 ∷ []) [] fresh (omega arith) c-IsPlain
      ((λ e. omega arith), tt)

-- The string has room for two digits and the 0.
param_get_u64-Got_example :
    Returns (param_get_u64 1234 (9 ∷ 9 ∷ 9 ∷ 9 ∷ []) 3) (Got 1234 (9 ∷ 9 ∷ 9 ∷ 9 ∷ []) 3)
param_get_u64-Got_example =
    param_get_u64-Got 1234 3 (9 ∷ 9 ∷ 9 ∷ 9 ∷ []) (omega arith) (omega arith)
