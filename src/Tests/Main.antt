-- ===== src/Tests/Main.antt =====
-- `main` and what it calls on its way (src/xpipe.c, src/times.c, src/logger.c) on concrete inputs.
use xpipe.Base.{
  ◌+◌, ◌*◌, ◌/◌, ◌%◌, ◌<◌, ◌≤◌, ◌≡◌, ◌⊎◌, ◌↔◌, refl, arith, true, false, [], ◌∷◌, Option, none,
  some, Bytes, length, word32, ltb, if◌then◌else◌,
}
use xpipe.Xstring.{
  is_letter, is_blank, is_digit, same_string, is_full_file_name, is_positive_integer, atoi,
}
use xpipe.Xstring.Decimal.{decimal}
use xpipe.DynamicArray.{dynamic_array_init, dynamic_array_create}
use xpipe.Conf.Settings.{
  NetConf, Logger, log_level_error, log_level_warn, log_level_info, log_level_debug,
}
use xpipe.Conf.Start.{conf_file_parser, no_settings}
use xpipe.Conf.Parser.{Parser, Parsed, conf_ok, initial}
use xpipe.Connection.{ev_both_events, Handler, Connection}
use xpipe.NetEvent.{add_event}
use xpipe.NetEvent.Dispatch.{null_called, process_one}
use xpipe.NetEvent.NullHandler.{Missing, handled, process_one_iff}
use xpipe.TcpServer.ConnectionPool.{connection_pool_init, tcp_get_connection}
use xpipe.TcpServer.Accept.{take_slot, get_slot, new_connection}
use xpipe.TcpServer.Setup.{tcp_server_init}
use xpipe.LogWriter.Levels.{log_error, log_warn, log_info, log_debug, at_severity, log-severity}
use xpipe.Times.{Tm, timer_update, log_time_size, cache_log_time_len}
use xpipe.Times.Text.{timer_update-fits}
use xpipe.Startup.{create_default_logger, sys_modules_prepare}
use xpipe.Startup.Daemon.{in_child, Fds, other, process_daemon, returned, redirect}
use xpipe.Startup.Daemon.PidFile.{Redirected, Recorded, process_daemon-Recorded}
use xpipe.Network.{Outcome, init_network_mod}
use xpipe.MainProgram.{Boot, working, main_program}
use xpipe.Tests.Inputs.{codes, endless, env}
use xpipe.Tests.System.{Descriptors, epoll, sockets}
use xpipe.Tests.SocketCalls.{server_calls}
use xpipe.Tests.Serving.{garbage, kernel}

-- a descriptor for each of the standard ones
abbrev fds : Fds
fds g = if ltb g 3 then some other else none

-- the old pid file holds a pid of as many digits
pid_recorded :
    process_daemon 1 in_child (some 3) true 4711 (some 4) fds (some (codes "1234"))
    ≡ returned true (redirect (some 3) fds) (some (codes "4711"))
unfolding process_daemon decimal
pid_recorded = refl

process_daemon-Recorded_example :
    (in_child ≡ in_child)
    × Redirected (some 3) fds (redirect (some 3) fds)
    × Recorded 4711 (some (codes "1234")) (some (codes "4711"))
process_daemon-Recorded_example =
    process_daemon-Recorded 1 in_child (some 3) true 4711 (some 4) fds (redirect (some 3) fds)
      (some (codes "1234")) (some (codes "4711")) (λ e. absurd (omega arith)) (omega arith)
      pid_recorded

-- a longer one stays behind the digits of a shorter
stale_pid :
    process_daemon 1 in_child none true 999 (some 3) fds (some (codes "12345"))
    ≡ returned true fds (some (codes "99945"))
unfolding process_daemon decimal
stale_pid = refl

abbrev pub new_year : Tm
new_year = record { tm_year = 113; tm_mon = 0; tm_mday = 1; tm_hour = 0; tm_min = 0; tm_sec = 0 }

timer_update-fits_example :
    let c = timer_update 1356998400 250000 new_year in
    ((length c.log_time + 1 ≤ log_time_size) ↔ (2013 < 10000))
    × ((2013 < 10000) → length c.log_time ≡ cache_log_time_len)
    × (c.msecs ≡ (1356998400 * 1000 + 250000 / 1000) % word32)
timer_update-fits_example = timer_update-fits 1356998400 250000 new_year (omega arith)

abbrev logger : Logger
logger = record { level = log_level_info; file = record { fd = some 5; name = codes "/tmp/log" } }

log-severity_example :
    let time = codes "2013-01-01/00:00:00 " in
    let text = codes "started" in
    (log_error time (some logger) none text
      ≡ at_severity time log_level_error (some logger) none text)
    × (log_warn time (some logger) none text
        ≡ at_severity time log_level_warn (some logger) none text)
    × (log_info time (some logger) none text
        ≡ at_severity time log_level_info (some logger) none text)
    × (log_debug time (some logger) none text
        ≡ at_severity time log_level_debug (some logger) none text)
log-severity_example =
    log-severity (codes "2013-01-01/00:00:00 ") logger none (codes "started") (omega arith)

abbrev both : Connection
both = record (new_connection 1 7) {
  events = ev_both_events;
  active_events = ev_both_events;
  read_event_handler = some Handler.tcp_server_recv;
  write_event_handler = some Handler.tcp_server_send;
}

-- a read handler that sends the rest of a response
abbrev sends_rest : Handler → Connection → Descriptors → Connection × Descriptors
sends_rest h c k = (record c { write_event_handler = none }, k)

process_one_iff_example :
    let c₁ =
      (handled epoll sends_rest both.active_events.read both.read_event_handler both kernel).0 in
    (process_one epoll sends_rest both kernel ≡ null_called) ↔ (
      Missing both.active_events.read both.read_event_handler
      ⊎ Missing c₁.active_events.write c₁.write_event_handler)
process_one_iff_example = process_one_iff epoll sends_rest both kernel

abbrev pub text_with_net : Bytes
text_with_net = codes "main { daemon off; }\nnet { listen 80; connections 4; }\n"

abbrev text_without_net : Bytes
text_without_net = codes "main { daemon off; }\n"

-- a start with this configuration file, with memory for all
abbrev pub boot : Bytes → Boot env epoll sockets server_calls
boot text = record {
  conf_pool = some 100;
  reads = some text ∷ [];
  log_fd = some 5;
  module_pools = some 300 ∷ (some 200 ∷ []);
  signals = true;
  memory = garbage;
  forked = in_child;
  null_fd = none;
  pid_opens = false;
  pid = 4711;
  pid_written = none;
  fds = fds;
  pid_file = none;
}

abbrev pub net_conf : NetConf
net_conf = record { port = 80; conns = 4; nodelay = 0; request_buffer_size = 0 }

abbrev pub network : Outcome epoll sockets server_calls endless
network = init_network_mod epoll sockets server_calls endless net_conf garbage kernel 200

pub boot_works :
    main_program env epoll sockets server_calls (boot text_with_net) kernel
    ≡ working net_conf network.1 network.2
unfolding main_program conf_file_parser dynamic_array_init is_letter is_digit is_blank same_string
    dynamic_array_create is_full_file_name is_positive_integer atoi create_default_logger
    sys_modules_prepare init_network_mod tcp_server_init take_slot get_slot tcp_get_connection
    connection_pool_init add_event process_daemon
boot_works = refl

abbrev accepted_parser : Option (Parsed env) → Parser env
accepted_parser (some (conf_ok p)) = p
accepted_parser _ = initial env (no_settings env 100)

abbrev without_net : Parser env
without_net = accepted_parser (conf_file_parser env (some 100) (some text_without_net ∷ []))
