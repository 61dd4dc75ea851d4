-- ===== src/Text/Ctype.antt =====
-- kernel/common/ctype.c and kernel/include/common/ctype.h. A `char` is its byte.
pub mod Laws
use ultra.Prelude.{
  ℕ, zero, suc, ◌+◌, ◌-◌, ◌*◌, ◌/◌, ◌%◌, Bool, List, [], ◌∷◌, ◌++◌, ◌==◌, if◌then◌else◌, get_or,
}

-- `enum char_type`
abbrev pub char_type_control : ℕ
char_type_control = 1

abbrev pub char_type_space : ℕ
char_type_space = 2

abbrev pub char_type_blank : ℕ
char_type_blank = 4

abbrev pub char_type_punctuation : ℕ
char_type_punctuation = 8

abbrev pub char_type_lower : ℕ
char_type_lower = 16

abbrev pub char_type_upper : ℕ
char_type_upper = 32

abbrev pub char_type_digit : ℕ
char_type_digit = 64

abbrev pub char_type_hex_digit : ℕ
char_type_hex_digit = 128

abbrev pub char_type_alpha : ℕ
char_type_alpha = char_type_lower + char_type_upper

abbrev pub char_type_alnum : ℕ
char_type_alnum = char_type_alpha + char_type_digit

-- `n` entries of the table
abbrev pub entries : ℕ → ℕ → List ℕ
entries zero type = []
entries (suc n) type = type ∷ entries n type

-- The table as the source writes it, in runs of equal entries; the entries from 128 on are 0.
abbrev pub g_ascii_map : List ℕ
g_ascii_map =
    entries 9 char_type_control
    ++ (entries 1 (char_type_control + char_type_space + char_type_blank)
        ++ (entries 4 (char_type_control + char_type_space)
            ++ (entries 18 char_type_control
                ++ (entries 1 (char_type_space + char_type_blank)
                    ++ (entries 15 char_type_punctuation
                        ++ (entries 10 (char_type_digit + char_type_hex_digit)
                            ++ (entries 7 char_type_punctuation
                                ++ (entries 6 (char_type_upper + char_type_hex_digit)
                                    ++ (entries 20 char_type_upper
                                        ++ (entries 6 char_type_punctuation
                                            ++ (entries 6 (char_type_lower + char_type_hex_digit)
                                                ++ (entries 20 char_type_lower
                                                    ++ (entries 4 char_type_punctuation
                                                        ++ (entries 1 char_type_control
                                                            ++ entries 128 0))))))))))))))

-- `a & b` of the lowest `bits` bits
abbrev pub and_bits : ℕ → ℕ → ℕ → ℕ
and_bits zero a b = 0
and_bits (suc bits) a b = a % 2 * (b % 2) + 2 * and_bits bits (a / 2) (b / 2)

unfoldable pub is_char_of_type : ℕ → ℕ → Bool
is_char_of_type c type = and_bits 8 (get_or g_ascii_map c 0) type == type

unfoldable pub isupper : ℕ → Bool
isupper c = is_char_of_type c char_type_upper

unfoldable pub islower : ℕ → Bool
islower c = is_char_of_type c char_type_lower

unfoldable pub isalnum : ℕ → Bool
isalnum c = is_char_of_type c char_type_alnum

unfoldable pub isspace : ℕ → Bool
isspace c = is_char_of_type c char_type_space

unfoldable pub isdigit : ℕ → Bool
isdigit c = is_char_of_type c char_type_digit

unfoldable pub isxdigit : ℕ → Bool
isxdigit c = is_char_of_type c char_type_hex_digit

-- `'a' - 'A'`
abbrev pub char_lower_to_upper_offset : ℕ
char_lower_to_upper_offset = 97 - 65

unfoldable pub tolower : ℕ → ℕ
tolower c = if isupper c then c + char_lower_to_upper_offset else c

unfoldable pub toupper : ℕ → ℕ
toupper c = if islower c then c - char_lower_to_upper_offset else c
