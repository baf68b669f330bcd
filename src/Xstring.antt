-- ===== src/Xstring.antt =====
-- src/xstring.h and src/xstring.c: character classes, and tests on strings; and what the program
-- uses of the C library's string functions. A `string_t` is the list of its `len` bytes.
pub mod Integer
pub mod Decimal
use xpipe.Base.{
  ℕ, ◌+◌, ◌-◌, ◌*◌, ◌%◌, ◌^◌, Bool, true, false, not, ◌&&◌, ◌||◌, List, [], ◌∷◌, ◌++◌, Option, none,
  some, Bytes, ltb, leb, ◌==◌, if◌then◌else◌, word32, word64,
}

abbrev pub lf : ℕ
lf = 10

abbrev pub cr : ℕ
cr = 13

abbrev between : ℕ → ℕ → ℕ → Bool
between lo hi c = leb lo c && leb c hi

unfoldable pub is_letter : ℕ → Bool
is_letter c = between b'a' b'z' c || between b'A' b'Z' c

unfoldable pub is_digit : ℕ → Bool
is_digit c = between b'0' b'9' c

unfoldable pub is_blank : ℕ → Bool
is_blank c = c == cr || c == lf || c == b'\t' || c == b' '

-- the `for` of `is_positive_integer`
unfoldable pub all_digits : Bytes → Bool
unfolding is_digit
all_digits [] = true
all_digits (c ∷ cs) = is_digit c && all_digits cs

-- `is_positive_integer`; `none` is a null pointer
unfoldable pub is_positive_integer : Option Bytes → Bool
unfolding is_digit all_digits
is_positive_integer none = false
is_positive_integer (some []) = false
is_positive_integer (some (c ∷ cs)) = if not (is_digit c) || c == b'0' then false else all_digits cs

abbrev last_byte : ℕ → Bytes → ℕ
last_byte d [] = d
last_byte d (c ∷ cs) = last_byte c cs

-- What `make_full_file_name` writes at `full_name`, for a non-empty install directory.
unfoldable pub make_full_file_name : Bytes → Bytes → Bytes
make_full_file_name install_dir name =
    install_dir ++ ((if not (last_byte 0 install_dir == b'/') then b'/' ∷ [] else []) ++ name)

-- `is_full_file_name`
unfoldable pub is_full_file_name : Bytes → Bool
is_full_file_name [] = false
is_full_file_name (c ∷ cs) = c == b'/'

-- The C string that stands at a string's data: up to the first NUL.
unfoldable pub c_string : Bytes → Bytes
c_string [] = []
c_string (c ∷ cs) = let rest = c_string cs in if c == 0 then [] else c ∷ rest

unfoldable pub equal : Bytes → Bytes → Bool
equal [] [] = true
equal (x ∷ xs) (y ∷ ys) = x == y && equal xs ys
equal _ _ = false

-- `x_strcmp(a, b) == 0`
unfoldable pub same_string : Bytes → Bytes → Bool
unfolding c_string equal
same_string a b = equal (c_string a) (c_string b)

-- `isspace`
abbrev is_space : ℕ → Bool
is_space c = between 9 13 c || c == b' '

skip_spaces : Bytes → Bytes
skip_spaces [] = []
skip_spaces (c ∷ cs) = let rest = skip_spaces cs in if is_space c then rest else c ∷ cs

-- the value of the leading digits, behind those that gave `acc`
unfoldable pub digits_value : ℕ → Bytes → ℕ
unfolding is_digit
digits_value acc [] = acc
digits_value acc (c ∷ cs) =
    let rest = digits_value (acc * 10 + (c - b'0')) cs in if is_digit c then rest else acc

-- `strtol` clamps to the range of `long`, and `atoi` keeps the low 32 bits.
abbrev pub long_max : ℕ
long_max = 2 ^ 63 - 1

abbrev pub int_of_positive : ℕ → ℕ
int_of_positive v = (if ltb long_max v then long_max else v) % word32

abbrev int_of_negative : ℕ → ℕ
int_of_negative v = (word64 - (if ltb (2 ^ 63) v then 2 ^ 63 else v)) % word32

signed_value : Bytes → ℕ
unfolding digits_value
signed_value [] = 0
signed_value (c ∷ cs) =
    if c == b'-'
    then int_of_negative (digits_value 0 cs)
    else if c == b'+'
    then int_of_positive (digits_value 0 cs)
    else int_of_positive (digits_value 0 (c ∷ cs))

-- `atoi`: the 32 bits of the `int`
unfoldable pub atoi : Bytes → ℕ
unfolding skip_spaces signed_value
atoi s = signed_value (skip_spaces s)
