-- ===== src/LogWriter/Line.antt =====
-- When a log line fits its buffer (src/logger.c).
use xpipe.Base.{
  ℕ, ◌+◌, ◌-◌, ◌≤◌, ◌<◌, ◌≡◌, refl, arith, [], ◌∷◌, ◌++◌, Option, Bytes, ltb, true, length,
  length-append, length-take, ap,
}
use xpipe.Xstring.{lf}
use xpipe.LogWriter.{log_content_max_len, level_str, error_text, max_len, cut, log_core_writer}

level_str_short : (level : ℕ) → length (level_str level) ≤ 10
unfolding level_str
level_str_short level = ground arith

length-log_core_writer :
    (time : Bytes) (err : Option Bytes) (level : ℕ) (message : Bytes)
    → length (log_core_writer time err level message)
      ≡ length time
        + length (level_str level)
        + length (error_text err)
        + length (cut level message)
        + 1
unfolding log_core_writer
length-log_core_writer time err level message =
    let tail = cut level message ++ (lf ∷ []) in
    let mid = error_text err ++ tail in
    omega (
      arith,
      length-append time (level_str level ++ mid),
      length-append (level_str level) mid,
      length-append (error_text err) tail,
      length-append (cut level message) (lf ∷ []),
    )

-- A line whose parts and newline fit the buffer together is written whole, within the buffer.
pub log_core_writer-fits :
    (time : Bytes) (err : Option Bytes) (level : ℕ) (message : Bytes)
    → 0 < length time
    → length time + length (level_str level) + length (error_text err) + length message + 1
      ≤ log_content_max_len
    → (log_core_writer time err level message
        ≡ time ++ (level_str level ++ (error_text err ++ (message ++ (lf ∷ [])))))
      × (length (log_core_writer time err level message) ≤ log_content_max_len)
unfolding log_core_writer
log_core_writer-fits time err level message some_time h =
    let short : ltb (length message) (max_len level) ≡ true = ground (arith, h, some_time) in
    let whole : cut level message ≡ message = rw short refl in
    (
      rw whole refl,
      omega (arith, length-log_core_writer time err level message, ap length whole, h),
    )

-- A message that takes all the room that `log_core_writer` leaves it makes it write past the end
-- of its buffer, at any level and whether or not there is an error text, when the time has two
-- bytes or more.
pub log_core_writer-overflow :
    (time : Bytes) (err : Option Bytes) (level : ℕ) (message : Bytes)
    → 2 ≤ length time
    → max_len level ≤ length message
    → log_content_max_len < length (log_core_writer time err level message)
log_core_writer-overflow time err level message t h =
    let full : length (cut level message) ≡ max_len level - 1 =
      ground (arith, h, length-take (max_len level - 1) message) in
    omega (arith, full, t, level_str_short level, length-log_core_writer time err level message)
