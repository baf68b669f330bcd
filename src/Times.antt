-- ===== src/Times.antt =====
-- src/times.c: the time that the program keeps, and its text for the log.
pub mod Text
use xpipe.Base.{ℕ, ◌+◌, ◌-◌, ◌*◌, ◌/◌, ◌%◌, [], ◌∷◌, ◌++◌, Bytes, length, replicate, word32}
use xpipe.Xstring.Decimal.{decimal}

-- what `localtime` gives: the year since 1900, and the month from 0 on
pub record Tm : Type 0 where
  pub tm_year : ℕ
  pub tm_mon : ℕ
  pub tm_mday : ℕ
  pub tm_hour : ℕ
  pub tm_min : ℕ
  pub tm_sec : ℕ

-- `time_current_seconds`, `time_current_msecs`, and the C string that is written to `log_time`
pub record TimeCache : Type 0 where
  pub seconds : ℕ
  pub msecs : ℕ
  pub log_time : Bytes

-- the size of the array `log_time`, and `cache_log_time.len`
abbrev pub log_time_size : ℕ
log_time_size = 21

abbrev pub cache_log_time_len : ℕ
cache_log_time_len = 20

-- the number filled up to `width` bytes, as "%4d" does with a space and "%02d" with a zero
unfoldable pub padded : ℕ → ℕ → ℕ → Bytes
padded fill width n = replicate (width - length (decimal n)) fill ++ decimal n

abbrev pub two_digits : ℕ → Bytes
two_digits n = padded b'0' 2 n

-- "%4d-%02d-%02d/%02d:%02d:%02d "
unfoldable pub time_text : Tm → Bytes
time_text t =
    padded b' ' 4 (t.tm_year + 1900)
    ++ (b'-'
        ∷ (two_digits (t.tm_mon + 1)
            ++ (b'-'
                ∷ (two_digits t.tm_mday
                    ++ (b'/'
                        ∷ (two_digits t.tm_hour
                            ++ (b':'
                                ∷ (two_digits t.tm_min
                                    ++ (b':' ∷ (two_digits t.tm_sec ++ (b' ' ∷ [])))))))))))

-- `timer_update`, with what `gettimeofday` and `localtime` give; `time_current_msecs` has 32 bits
unfoldable pub timer_update : ℕ → ℕ → Tm → TimeCache
unfolding time_text
timer_update secs usecs t = record {
  seconds = secs;
  msecs = (secs % word32 * 1000 + usecs / 1000) % word32;
  log_time = time_text t;
}
