-- ===== src/LogWriter.antt =====
-- `log_core_writer` (src/logger.c): the line that it builds in a buffer on the stack.
pub mod Line
pub mod Levels
use xpipe.Base.{
  ℕ, ◌==◌, ◌+◌, ◌-◌, [], ◌∷◌, ◌++◌, Option, none, some, Bytes, ltb, if◌then◌else◌, length, take,
}
use xpipe.Xstring.{lf}
use xpipe.Conf.Settings.{
  log_level_error, log_level_warn, log_level_info, log_level_debug, log_level_stdout,
}

-- LOG_CONTENT_MAX_LEN, the size of the buffer
abbrev pub log_content_max_len : ℕ
log_content_max_len = 2048

-- `level_str`
unfoldable pub level_str : ℕ → Bytes
level_str level =
    if level == log_level_error
    then b' ' ∷ b'[' ∷ b'E' ∷ b'R' ∷ b'R' ∷ b'O' ∷ b'R' ∷ b']' ∷ b' ' ∷ []
    else if level == log_level_warn
    then b' ' ∷ b'[' ∷ b'W' ∷ b'A' ∷ b'R' ∷ b'N' ∷ b']' ∷ b' ' ∷ []
    else if level == log_level_info
    then b' ' ∷ b'[' ∷ b'I' ∷ b'N' ∷ b'F' ∷ b'O' ∷ b']' ∷ b' ' ∷ []
    else if level == log_level_debug
    then b' ' ∷ b'[' ∷ b'D' ∷ b'E' ∷ b'B' ∷ b'U' ∷ b'G' ∷ b']' ∷ b' ' ∷ []
    else if level == log_level_stdout
    then b' ' ∷ b'[' ∷ b'S' ∷ b'T' ∷ b'D' ∷ b'O' ∷ b'U' ∷ b'T' ∷ b']' ∷ b' ' ∷ []
    else []

-- the text of `errno`, if there is one
abbrev pub error_text : Option Bytes → Bytes
error_text none = []
error_text (some s) = s ++ (b' ' ∷ b'-' ∷ b' ' ∷ [])

abbrev pub max_len : ℕ → ℕ
max_len level = log_content_max_len - length (level_str level) - 1

-- what `vsnprintf` leaves of the message
abbrev pub cut : ℕ → Bytes → Bytes
cut level message =
    if ltb (length message) (max_len level) then message else take (max_len level - 1) message

-- The bytes that `log_core_writer` puts into the buffer and writes, for the time and the message as
-- they were formatted.
unfoldable pub log_core_writer : Bytes → Option Bytes → ℕ → Bytes → Bytes
log_core_writer time err level message =
    time ++ (level_str level ++ (error_text err ++ (cut level message ++ (lf ∷ []))))
