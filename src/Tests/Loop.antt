-- ===== src/Tests/Loop.antt =====
-- The loop of the program (src/xpipe.c) on concrete turns.
use xpipe.Base.{ℕ, ◌≡◌, refl, List, [], ◌∷◌, false}
use xpipe.Conf.Settings.{NetConf}
use xpipe.Xstring.{
  is_letter, is_blank, is_digit, same_string, is_full_file_name, is_positive_integer, atoi,
}
use xpipe.DynamicArray.{dynamic_array_init, dynamic_array_create}
use xpipe.Conf.Start.{conf_file_parser}
use xpipe.NetEvent.{add_event}
use xpipe.NetEvent.Dispatch.{process_one}
use xpipe.TcpServer.ConnectionPool.{connection_pool_init, tcp_get_connection}
use xpipe.TcpServer.Accept.{take_slot, get_slot, tcp_server_accept}
use xpipe.TcpServer.Setup.{tcp_server_init}
use xpipe.EventLoop.{process_events, process_slot, call}
use xpipe.Network.{init_network_mod}
use xpipe.Startup.{create_default_logger, sys_modules_prepare}
use xpipe.Startup.Daemon.{process_daemon}
use xpipe.MainProgram.{main_program}
use xpipe.Times.{TimeCache, timer_update}
use xpipe.MainProgram.Loop.{Turn, system_modules_working, success, program}
use xpipe.MainProgram.Stops.{Consistent}
use xpipe.Tests.Inputs.{endless, env}
use xpipe.Tests.System.{epoll, sockets}
use xpipe.Tests.SocketCalls.{server_calls}
use xpipe.Tests.Rounds.{traffic}
use xpipe.Tests.Reports.{one_ready, one_ready-Reported}
use xpipe.Tests.Serving.{kernel}
use xpipe.Tests.Main.{new_year, boot, text_with_net}

-- a turn with a report on the listening socket, and with so many SIGTERM
abbrev turn : ℕ → (cf : NetConf) → Turn epoll sockets server_calls endless traffic cf
turn n cf = record {
  waited = λ k. k;
  ready = λ k. one_ready 4 k;
  terminations = n;
  secs = 1356998400;
  usecs = 0;
  time = new_year;
  waited-same = λ k g. (refl, refl);
  ready-Reported = λ k. one_ready-Reported 4 k;
}

abbrev turns : (cf : NetConf) → List (Turn epoll sockets server_calls endless traffic cf)
turns cf = turn 0 cf ∷ (turn 1 cf ∷ (turn 0 cf ∷ []))

abbrev started_at : TimeCache
started_at = timer_update 1356998399 0 new_year

-- the first turn accepts a client, and the second ends the loop
program_succeeds :
    program env epoll sockets server_calls traffic
      (boot text_with_net)
      false
      turns
      started_at
      kernel
    ≡ success
unfolding program system_modules_working main_program conf_file_parser dynamic_array_init is_letter
    is_digit is_blank same_string dynamic_array_create is_full_file_name is_positive_integer atoi
    create_default_logger sys_modules_prepare init_network_mod tcp_server_init take_slot get_slot
    tcp_get_connection connection_pool_init add_event process_daemon process_events process_slot
    process_one tcp_server_accept call
program_succeeds = refl
