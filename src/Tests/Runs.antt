-- ===== src/Tests/Runs.antt =====
-- The program's own configuration file (conf/xpipe.conf), and error paths.
use xpipe.Base.{
  ℕ, List, [], ◌∷◌, ◌++◌, ◌≡◌, ◌≢◌, ◌↔◌, refl, zero, suc, some, none, Bytes, Option, arith, map,
  length,
}
use xpipe.Xstring.{
  is_letter, is_blank, is_digit, same_string, is_full_file_name, is_positive_integer, atoi,
}
use xpipe.DynamicArray.{dynamic_array_init, dynamic_array_create}
use xpipe.Conf.Settings.{Settings, NetConf, Logger, Args}
use xpipe.Conf.Commands.{cmd_listen_set, cmd_connecions_set, cmd_request_buffer_size_set}
use xpipe.Conf.Parser.{Parsed, conf_ok, undefined, initial, run, parse_reads}
use xpipe.Conf.Parser.{sw_mod_block}
use xpipe.Conf.CommandText.{read_command, run-command_text}
use xpipe.Conf.Start.{conf_file_parser, no_settings}
use xpipe.Conf.SafeRun.{parse_reads-defined}
use xpipe.Conf.Lines.{LineCounted, run-LineCounted}
use xpipe.Conf.Reads.{join, parsed, parse_reads-join}
use xpipe.Conf.Numbers.{Succeeds, TakesNumeral, numeric_command_iff}
use xpipe.Conf.Overflow.{Letters, parse_reads-long_name}
use xpipe.Tests.Inputs.{codes, env}

abbrev conf_file : Bytes
conf_file =
    codes
      "main {\n    daemon on;\n    pid log/xpipe.pid;\n    log log/xpipe.log debug;\n}\n\nnet {\n    listen 8080;\n    connections 1024;\n}\n"

-- what a run of the parser tells: the port, the connections, the level of the log and the line
abbrev told : Option (Parsed env) → Option (Option ℕ × Option ℕ × ℕ)
told (some (conf_ok p)) = some (port p.settings.net, level p.settings.main_logger, p.line)
  where
    port : Option NetConf → Option ℕ
    port none = none
    port (some n) = some n.port

    level : Option Logger → Option ℕ
    level none = none
    level (some l) = some l.level
told _ = none

conf_file-parsed :
    told (conf_file_parser env (some 100) (some conf_file ∷ [])) ≡ some (some 8080, some 4, 11)
unfolding conf_file_parser dynamic_array_init is_letter is_digit is_blank same_string
    dynamic_array_create is_full_file_name is_positive_integer atoi
conf_file-parsed = refl

abbrev start : Settings env
start = no_settings env 100

abbrev pieces : List Bytes
pieces = codes "net {\n li" ∷ codes "sten 80;\n}" ∷ []

parse_reads-defined_example :
    parse_reads env (some (codes "net {\n li") ∷ none ∷ []) (initial env start) ≢ undefined
unfolding is_blank
parse_reads-defined_example =
    parse_reads-defined env (some (codes "net {\n li") ∷ none ∷ []) start (
      omega arith,
      (
        omega arith,
        (
          omega arith,
          (
            omega arith,
            (omega arith, (omega arith, (omega arith, (omega arith, (omega arith, tt))))),
          ),
        ),
      ),
    )

run-LineCounted_example :
    LineCounted env
      (initial env start)
      (codes "net {\n ?")
      (run env (codes "net {\n ?") (initial env start))
run-LineCounted_example = run-LineCounted env (codes "net {\n ?") (initial env start)

parse_reads-join_example :
    parse_reads env (map some pieces) (initial env start)
    ≡ parsed env (run env (join pieces) (initial env start))
parse_reads-join_example = parse_reads-join env pieces (initial env start) (λ e. cc, (λ e. cc, tt))

abbrev listen_args : Args
listen_args = record { words = codes "listen" ∷ codes "8080" ∷ []; nalloc = 10 }

abbrev net_conf : NetConf
net_conf = record { port = 0; conns = 0; nodelay = 0; request_buffer_size = 0 }

abbrev a_name : ℕ → Bytes
a_name zero = []
a_name (suc n) = b'a' ∷ a_name n

a_name-Letters : (n : ℕ) → Letters (a_name n)
unfolding is_letter
a_name-Letters zero = tt
a_name-Letters (suc n) = (refl, a_name-Letters n)

length-a_name : (n : ℕ) → length (a_name n) ≡ n
length-a_name zero = refl
length-a_name (suc n) = omega (arith, length-a_name n)

parse_reads-long_name_example :
    parse_reads env (some (a_name 257 ++ codes " {}") ∷ []) (initial env start) ≡ undefined
parse_reads-long_name_example =
    parse_reads-long_name env (a_name 257) (codes " {}") [] start (a_name-Letters 257)
      (omega (arith, length-a_name 257))

-- what `listen 8080` leaves
abbrev listening : Settings env
listening = record start { net = some (record net_conf { port = 8080 }) }

numeric_command_iff_example :
    (Succeeds env (cmd_listen_set env listen_args net_conf start) listening
      ↔ TakesNumeral env listen_args.words
          (λ n. record start { net = some (record net_conf { port = n }) })
          listening)
    × (Succeeds env (cmd_connecions_set env listen_args net_conf start) listening
        ↔ TakesNumeral env listen_args.words
            (λ n. record start { net = some (record net_conf { conns = n }) })
            listening)
    × (Succeeds env (cmd_request_buffer_size_set env listen_args net_conf start) listening
        ↔ TakesNumeral env listen_args.words
            (λ n. record start { net = some (record net_conf { request_buffer_size = n }) })
            listening)
numeric_command_iff_example = numeric_command_iff env listen_args net_conf start listening

run-command_text_example :
    run env (codes "listen 8080 ;") (record (initial env start) { state = sw_mod_block; key = [] })
    ≡ read_command env
        (codes "listen")
        ((codes " ", codes "8080") ∷ [])
        (codes " ")
        (initial env start)
unfolding is_letter is_blank
run-command_text_example =
    run-command_text env b'l' (codes "isten") ((codes " ", codes "8080") ∷ []) (codes " ")
      (initial env start) refl (refl, (refl, (refl, (refl, (refl, tt))))) (omega arith)
      ((refl, tt), ((refl, (refl, (refl, (refl, tt)))), omega arith), tt) (refl, tt)
