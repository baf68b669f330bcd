-- ===== src/Xstring/Decimal.antt =====
-- `sprintf(buffer, "%d", n)` of the C library for a number that is not negative, and that
-- `atoi` (src/xstring.h) reads it back.
use xpipe.Base.{
  ℕ, zero, suc, ◌+◌, ◌*◌, ◌/◌, ◌%◌, ◌^◌, ◌<◌, ◌≤◌, ◌≡◌, refl, ◌∙◌, sym, ap, arith, List, [], ◌∷◌,
  Bytes, length, ltb, if◌then◌else◌, Bool-cases, inl, inr,
}
use xpipe.Xstring.{atoi, int_of_positive}
use xpipe.Xstring.Integer.{Digits, numeral_value, print, atoi-Digits}

-- the digits of `n` in front of those of `ds`
unfoldable pub digits_onto : ℕ → ℕ → List ℕ → List ℕ
digits_onto zero n ds = ds
digits_onto (suc f) n ds =
    let rest = digits_onto f (n / 10) (n % 10 ∷ ds) in if ltb n 10 then n ∷ ds else rest

-- a number is larger than the number of its digits
unfoldable pub decimal : ℕ → Bytes
unfolding digits_onto print
decimal n = print (digits_onto (suc n) n [])

digits_onto-value :
    (f n : ℕ) (ds : List ℕ) → n < f → numeral_value 0 (digits_onto f n ds) ≡ numeral_value n ds
unfolding digits_onto numeral_value
digits_onto-value zero n ds h = elim h [ ]
digits_onto-value (suc f) n ds h = elim (Bool-cases (ltb n 10)) [
  | inl e ↦ let z : 0 + n ≡ n = omega arith in rw e (ap (λ m. numeral_value m ds) z)
  | inr e ↦
      let back : n / 10 * 10 + n % 10 ≡ n = omega arith in
      rw e (
        digits_onto-value f (n / 10) (n % 10 ∷ ds) (ground (arith, e, h))
        ∙ ap (λ m. numeral_value m ds) back)
]

digits_onto-Digits :
    (f n : ℕ) (ds : List ℕ)
    → n < f
    → Digits ds
    → (d : ℕ) × (rest : List ℕ) × (digits_onto f n ds ≡ d ∷ rest) × Digits (d ∷ rest)
unfolding digits_onto
digits_onto-Digits zero n ds h k = elim h [ ]
digits_onto-Digits (suc f) n ds h k = elim (Bool-cases (ltb n 10)) [
  | inl e ↦ rw e (n, ds, refl, (ground (arith, e), k))
  | inr e ↦
      rw e (digits_onto-Digits f (n / 10) (n % 10 ∷ ds) (ground (arith, e, h)) (omega arith, k))
]

small : (n : ℕ) → n < 2 ^ 31 → int_of_positive (numeral_value n []) ≡ n
unfolding numeral_value
small n h = ground (arith, h)

-- `atoi` reads the decimal text of an `int`
pub atoi-decimal : (n : ℕ) → n < 2 ^ 31 → atoi (decimal n) ≡ n
unfolding decimal
atoi-decimal n h =
    let (d, rest, e, k) = digits_onto-Digits (suc n) n [] (omega arith) tt in
    let value = digits_onto-value (suc n) n [] (omega arith) in
    ap (λ ds. atoi (print ds)) e
    ∙ atoi-Digits d rest k
    ∙ ap (λ ds. int_of_positive (numeral_value 0 ds)) (sym e)
    ∙ ap int_of_positive value
    ∙ small n h

-- 10 to the power of `w`
abbrev pub ten_to : ℕ → ℕ
ten_to zero = 1
ten_to (suc w) = 10 * ten_to w

length-print : (ds : List ℕ) → length (print ds) ≡ length ds
unfolding print
length-print [] = refl
length-print (d ∷ ds) = ap suc (length-print ds)

digits_onto-short :
    (f n w : ℕ) (ds : List ℕ)
    → n < f
    → n < ten_to (suc w)
    → length (digits_onto f n ds) ≤ suc w + length ds
unfolding digits_onto
digits_onto-short zero n w ds h k = elim h [ ]
digits_onto-short (suc f) n zero ds h k = ground (arith, h, k)
digits_onto-short (suc f) n (suc w) ds h k = elim (Bool-cases (ltb n 10)) [
  | inl e ↦ rw e (omega arith)
  | inr e ↦
      let rest =
        digits_onto-short f (n / 10) w (n % 10 ∷ ds) (ground (arith, e, h)) (omega arith) in
      rw e (omega (arith, rest))
]

ten_to-pos : (w : ℕ) → 0 < ten_to w
ten_to-pos zero = omega arith
ten_to-pos (suc w) = omega (arith, ten_to-pos w)

digits_onto-long :
    (f n w : ℕ) (ds : List ℕ)
    → n < f
    → ten_to w ≤ n
    → suc w + length ds ≤ length (digits_onto f n ds)
unfolding digits_onto
digits_onto-long zero n w ds h k = elim h [ ]
digits_onto-long (suc f) n zero ds h k = elim (Bool-cases (ltb n 10)) [
  | inl e ↦ rw e (omega arith)
  | inr e ↦
      let rest =
        digits_onto-long f (n / 10) 0 (n % 10 ∷ ds) (ground (arith, e, h)) (ground (arith, e)) in
      rw e (omega (arith, rest))
]
digits_onto-long (suc f) n (suc w) ds h k = elim (Bool-cases (ltb n 10)) [
  | inl e ↦ absurd (ground (arith, e, k, ten_to-pos w))
  | inr e ↦
      let rest = digits_onto-long f (n / 10) w (n % 10 ∷ ds) (ground (arith, e, h)) (omega arith) in
      rw e (omega (arith, rest))
]

-- a number below 10 ^ w has at most `w` digits, and one from 10 ^ w on has more
pub decimal-short : (n w : ℕ) → n < ten_to (suc w) → length (decimal n) ≤ suc w
unfolding decimal
decimal-short n w h = omega (
  arith,
  length-print (digits_onto (suc n) n []),
  digits_onto-short (suc n) n w [] (omega arith) h,
)

pub decimal-long : (n w : ℕ) → ten_to w ≤ n → suc w ≤ length (decimal n)
unfolding decimal
decimal-long n w h = omega (
  arith,
  length-print (digits_onto (suc n) n []),
  digits_onto-long (suc n) n w [] (omega arith) h,
)
