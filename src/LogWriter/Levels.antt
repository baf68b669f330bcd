-- ===== src/LogWriter/Levels.antt =====
-- Which messages a logger writes: `log_error`, `log_warn`, `log_info` and `log_debug`, and
-- `log_printf` and `log_stderr`, which need no logger (src/logger.c).
use xpipe.Base.{ℕ, ◌≤◌, ◌≡◌, arith, Option, none, some, Bytes, null, ltb, leb, ◌==◌, if◌then◌else◌}
use xpipe.Allocator.{Allocator}
use xpipe.Conf.Settings.{
  File, Logger, logger_size, log_level_error, log_level_warn, log_level_info, log_level_debug,
  log_level_stdout,
}
use xpipe.LogWriter.{log_core_writer}

-- a line and the file that it goes to, `none` for the standard output
abbrev pub Written : Type 0
Written = Option File × Bytes

module _ (time : Bytes) where
  -- `none` for the logger is NULL, and for the result that nothing is written
  unfoldable pub log_error : Option Logger → Option Bytes → Bytes → Option Written
  log_error none err message = none
  log_error (some l) err message =
      some (some l.file, log_core_writer time err log_level_error message)

  unfoldable pub log_warn : Option Logger → Option Bytes → Bytes → Option Written
  log_warn none err message = none
  log_warn (some l) err message =
      if ltb l.level log_level_warn
      then none
      else some (some l.file, log_core_writer time err log_level_warn message)

  unfoldable pub log_info : Option Logger → Option Bytes → Bytes → Option Written
  log_info none err message = none
  log_info (some l) err message =
      if ltb l.level log_level_info
      then none
      else some (some l.file, log_core_writer time err log_level_info message)

  unfoldable pub log_debug : Option Logger → Option Bytes → Bytes → Option Written
  log_debug none err message = none
  log_debug (some l) err message =
      if ltb l.level log_level_debug
      then none
      else some (some l.file, log_core_writer time err log_level_debug message)

  unfoldable pub log_printf : Bytes → Written
  log_printf message = (none, log_core_writer time none log_level_stdout message)

  unfoldable pub log_stderr : Option Bytes → Bytes → Written
  log_stderr err message = (none, log_core_writer time err log_level_stdout message)

  -- a message of the severity `n`, written if the logger's level reaches it
  abbrev pub at_severity : ℕ → Option Logger → Option Bytes → Bytes → Option Written
  at_severity n none err message = none
  at_severity n (some l) err message =
      if leb n l.level then some (some l.file, log_core_writer time err n message) else none

  -- With a logger of any level that `log_create` is called with, the four functions write the
  -- messages whose severity that level reaches, to the logger's file, and no others.
  pub log-severity :
      (l : Logger) (err : Option Bytes) (message : Bytes)
      → log_level_error ≤ l.level
      → (log_error (some l) err message ≡ at_severity log_level_error (some l) err message)
        × (log_warn (some l) err message ≡ at_severity log_level_warn (some l) err message)
        × (log_info (some l) err message ≡ at_severity log_level_info (some l) err message)
        × (log_debug (some l) err message ≡ at_severity log_level_debug (some l) err message)
  unfolding log_error log_warn log_info log_debug
  log-severity l err message h = (ground arith, ground arith, ground arith, ground arith)

module _ (al : Allocator) where
  open al use {Pool, alloc}

  -- `log_create`
  unfoldable pub log_create : ℕ → File → Pool → Option Logger × Pool
  log_create level file p =
      let (a, p') = alloc logger_size p in
      if a == null then (none, p') else (some (record { level = level; file = file }), p')
