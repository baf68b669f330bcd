-- ===== src/Tests/Files.antt =====
-- Files of src/xfile.c, log lines of src/logger.c and the loggers of the modules on concrete inputs.
use xpipe.Base.{
  List, ℕ, zero, suc, ◌≤◌, ◌<◌, ◌≡◌, inr, refl, arith, true, [], ◌∷◌, none, some, Bytes, length,
}
use xpipe.FileAccess.{OpenFile, Writing, file_write}
use xpipe.FileAccess.Written.{Placed, file_write-Placed}
use xpipe.LogWriter.{log_core_writer, level_str, log_content_max_len}
use xpipe.LogWriter.Line.{log_core_writer-fits, log_core_writer-overflow}
use xpipe.Startup.{Resource, SystemModule}
use xpipe.Tests.Inputs.{codes}

abbrev file : OpenFile
file = record { offset = 10 }

-- three bytes in two writes, from offset 4 on
file_write-Placed_example :
    (w : Writing) × (file_write
        (some 4)
        true
        (some 1 ∷ some 2 ∷ none ∷ none ∷ [])
        (codes "abc")
        file
      ≡ some w)
    × Placed (some 4) (codes "abc") file w
file_write-Placed_example =
    file_write-Placed (some 4) true (some 1 ∷ some 2 ∷ none ∷ none ∷ []) (codes "abc") file
      (omega arith, inr (omega arith), (omega arith, inr (omega arith), tt)) (omega arith)

abbrev time : Bytes
time = codes "2014-01-01/00:00:00 "

log_core_writer-fits_example :
    (log_core_writer time none 3 (codes "started") ≡ codes "2014-01-01/00:00:00  [INFO] started\n")
    × (length (log_core_writer time none 3 (codes "started")) ≤ 2048)
unfolding level_str
log_core_writer-fits_example =
    log_core_writer-fits time none 3 (codes "started") (omega arith) (omega arith)

abbrev x_times : ℕ → Bytes
x_times zero = []
x_times (suc n) = b'x' ∷ x_times n

length-x_times : (n : ℕ) → length (x_times n) ≡ n
length-x_times zero = refl
length-x_times (suc n) = omega (arith, length-x_times n)

log_core_writer-overflow_example :
    log_content_max_len < length (log_core_writer time none 3 (x_times 2039))
unfolding level_str
log_core_writer-overflow_example =
    log_core_writer-overflow time none 3 (x_times 2039) (omega arith)
      (omega (arith, length-x_times 2039))

abbrev no_loggers : Resource
no_loggers = record { main_logger = none; default_logger = none }

abbrev two_modules : List (SystemModule ℕ)
two_modules = record { pool = none; logger = none } ∷ record { pool = none; logger = none } ∷ []
