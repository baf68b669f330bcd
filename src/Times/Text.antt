-- ===== src/Times/Text.antt =====
-- The text of the time (src/times.c) fills its array exactly.
use xpipe.Base.{
  ℕ, ◌+◌, ◌-◌, ◌*◌, ◌/◌, ◌%◌, ◌<◌, ◌≤◌, ◌≡◌, ◌↔◌, arith, [], ◌∷◌, ◌++◌, Bytes, length,
  length-append, length-replicate, replicate, word32,
}
use native.Mathlib.Decide.{dec_lt}
use xpipe.Xstring.Decimal.{decimal, decimal-short, decimal-long}
use xpipe.Times.{Tm, log_time_size, cache_log_time_len, padded, two_digits, time_text, timer_update}

length-padded_full : (fill w n : ℕ) → length (decimal n) ≤ w → length (padded fill w n) ≡ w
unfolding padded
length-padded_full fill w n h = omega (
  arith,
  length-append (replicate (w - length (decimal n)) fill) (decimal n),
  length-replicate (w - length (decimal n)) fill,
)

length-two_digits : (n : ℕ) → n < 100 → length (two_digits n) ≡ 2
length-two_digits n h = length-padded_full b'0' 2 n (decimal-short n 1 h)

-- a longer number is not cut
padded-long : (fill w n : ℕ) → length (decimal n) ≤ length (padded fill w n)
unfolding padded
padded-long fill w n =
    omega (arith, length-append (replicate (w - length (decimal n)) fill) (decimal n))

-- a time of day and a date as `localtime` gives them
abbrev pub IsTime : Tm → Type 0
IsTime t = (t.tm_mon < 12) × (t.tm_mday ≤ 31) × (t.tm_hour < 24) × (t.tm_min < 60) × (t.tm_sec ≤ 60)

length-part :
    (sep n : ℕ) (rest : Bytes) → n < 100 → length (sep ∷ (two_digits n ++ rest)) ≡ 3 + length rest
length-part sep n rest h = omega (arith, length-append (two_digits n) rest, length-two_digits n h)

length-time_text :
    (t : Tm) → IsTime t → length (time_text t) ≡ length (padded b' ' 4 (t.tm_year + 1900)) + 16
unfolding time_text
length-time_text t (mon, mday, hour, min, sec) =
    let s₁ = b':' ∷ (two_digits t.tm_sec ++ (b' ' ∷ [])) in
    let s₂ = b':' ∷ (two_digits t.tm_min ++ s₁) in
    let s₃ = b'/' ∷ (two_digits t.tm_hour ++ s₂) in
    let s₄ = b'-' ∷ (two_digits t.tm_mday ++ s₃) in
    let s₅ = b'-' ∷ (two_digits (t.tm_mon + 1) ++ s₄) in
    omega (
      arith,
      length-append (padded b' ' 4 (t.tm_year + 1900)) s₅,
      length-part b'-' (t.tm_mon + 1) s₄ (omega arith),
      length-part b'-' t.tm_mday s₃ (omega arith),
      length-part b'/' t.tm_hour s₂ (omega arith),
      length-part b':' t.tm_min s₁ (omega arith),
      length-part b':' t.tm_sec (b' ' ∷ []) (omega arith),
    )

-- With a time as `localtime` gives it, `timer_update` writes its text with its NUL into the array,
-- and the text has the length that the log takes, exactly up to the year 9999: later ones write
-- past the array. `time_current_msecs` is the time in milliseconds, modulo 2 ^ 32.
pub timer_update-fits :
    (secs usecs : ℕ) (t : Tm)
    → IsTime t
    → let c = timer_update secs usecs t in
      ((length c.log_time + 1 ≤ log_time_size) ↔ (t.tm_year + 1900 < 10000))
      × ((t.tm_year + 1900 < 10000) → length c.log_time ≡ cache_log_time_len)
      × (c.msecs ≡ (secs * 1000 + usecs / 1000) % word32)
unfolding timer_update
timer_update-fits secs usecs t h =
    let year = t.tm_year + 1900 in
    let all = length-time_text t h in
    let short = λ (l : year < 10000). length-padded_full b' ' 4 year (decimal-short year 3 l) in
    (
      (
        λ fit. elim (dec_lt year 10000) [
          | yes l ↦ l
          | no n ↦
              omega (arith, all, fit, padded-long b' ' 4 year, decimal-long year 4 (omega arith))
        ],
        λ l. let now = short l in omega (arith, all, now),
      ),
      λ l. let now = short l in omega (arith, all, now),
      omega arith,
    )
