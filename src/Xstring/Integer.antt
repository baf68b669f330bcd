-- ===== src/Xstring/Integer.antt =====
-- `is_positive_integer` and `atoi` on it (src/xstring.c), as the `set` handlers combine them.
use xpipe.Base.{
  ℕ, ◌+◌, ◌-◌, ◌*◌, ◌≤◌, ◌<◌, ◌≡◌, ap, ◌∙◌, ◌↔◌, refl, inl, inr, true, List, [], ◌∷◌, some, Bytes,
  ◌==◌, arith, length, length-append, Bool-cases,
}
use xpipe.Xstring.{
  all_digits, is_positive_integer, digits_value, atoi, int_of_positive, make_full_file_name,
  last_byte,
}

-- a decimal numeral: its digits, the most significant first
abbrev pub Digits : List ℕ → Type 0
Digits [] = Unit
Digits (d ∷ ds) = (d < 10) × Digits ds

unfoldable pub numeral_value : ℕ → List ℕ → ℕ
numeral_value acc [] = acc
numeral_value acc (d ∷ ds) = numeral_value (acc * 10 + d) ds

-- the text of a numeral
unfoldable pub print : List ℕ → Bytes
print [] = []
print (d ∷ ds) = (d + b'0') ∷ print ds

pub digits_value-print :
    (acc : ℕ) (ds : List ℕ) → Digits ds → digits_value acc (print ds) ≡ numeral_value acc ds
unfolding digits_value numeral_value print
digits_value-print acc [] h = refl
digits_value-print acc (d ∷ ds) h = ground (arith, digits_value-print (acc * 10 + d) ds)

all_digits-print : (ds : List ℕ) → Digits ds → all_digits (print ds) ≡ true
unfolding all_digits print
all_digits-print [] h = refl
all_digits-print (d ∷ ds) h = ground (arith, all_digits-print ds)

-- `atoi` reads the value of any numeral, clamped to a `long` and cut to 32 bits.
pub atoi-Digits :
    (d : ℕ) (ds : List ℕ)
    → Digits (d ∷ ds)
    → atoi (print (d ∷ ds)) ≡ int_of_positive (numeral_value 0 (d ∷ ds))
unfolding atoi print
atoi-Digits d ds h = ground (arith, digits_value-print 0 (d ∷ ds))

pub atoi-print :
    (d : ℕ) (ds : List ℕ)
    → Digits (d ∷ ds)
    → 0 < d
    → (is_positive_integer (some (print (d ∷ ds))) ≡ true)
      × (atoi (print (d ∷ ds)) ≡ int_of_positive (numeral_value 0 (d ∷ ds)))
unfolding is_positive_integer print
atoi-print d ds h pos = (ground (arith, all_digits-print ds), atoi-Digits d ds h)

-- What passes the test is such a numeral.
abbrev pub IsNumeral : Bytes → Type 0
IsNumeral s = (d : ℕ) × (ds : List ℕ) × Digits (d ∷ ds) × (0 < d) × (s ≡ print (d ∷ ds))

decimal_lem : (s : Bytes) → all_digits s ≡ true → (ds : List ℕ) × Digits ds × (s ≡ print ds)
unfolding all_digits print
decimal_lem [] h = ([], tt, refl)
decimal_lem (c ∷ cs) h =
    let (ds, k, e) = decimal_lem cs (ground arith) in
    ((c - b'0') ∷ ds, (ground arith, k), ground arith)

pub is_positive_integer_iff : (s : Bytes) → (is_positive_integer (some s) ≡ true) ↔ IsNumeral s
unfolding is_positive_integer print
is_positive_integer_iff [] = (λ h. cc, λ (d, ds, k, p, e). cc)
is_positive_integer_iff (c ∷ cs) = (
  λ h.
      let (ds, k, e) = decimal_lem cs (ground arith) in
      (c - b'0', ds, (ground arith, k), ground arith, ground arith),
  λ (d, ds, k, p, e). ap (λ t. is_positive_integer (some t)) e ∙ (atoi-print d ds k p).0,
)

-- The full name fits a buffer of `strlen(dir) + len + 2` bytes with its NUL.
pub length-make_full_file_name :
    (dir name : Bytes) → length (make_full_file_name dir name) + 1 ≤ length dir + length name + 2
unfolding make_full_file_name
length-make_full_file_name dir name = elim (Bool-cases (last_byte 0 dir == b'/')) [
  | inl e ↦ rw e (omega (arith, length-append dir name))
  | inr e ↦ rw e (omega (arith, length-append dir (b'/' ∷ name)))
]
