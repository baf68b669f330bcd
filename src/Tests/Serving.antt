-- ===== src/Tests/Serving.antt =====
-- The server from its start (src/net/network.c) on concrete inputs.
use xpipe.Base.{◌≡◌, refl, [], ◌∷◌, none, some}
use xpipe.Conf.Settings.{NetConf}
use xpipe.NetEvent.{add_event}
use xpipe.TcpServer.ConnectionPool.{connection_pool_init, tcp_get_connection}
use xpipe.TcpServer.Accept.{accepted, Table, new_connection, take_slot, get_slot, tcp_server_accept}
use xpipe.TcpServer.Setup.{tcp_server_init}
use xpipe.EventLoop.{Walked, done, process_events, process_slot, call}
use xpipe.EventLoop.Clients.{client_handlers}
use xpipe.NetEvent.Dispatch.{process_one}
use xpipe.Connection.{ev_read_event}
use xpipe.Tests.Reports.{one_ready}
use xpipe.Network.{Outcome, init_network_mod}
use xpipe.Network.Serving.{process_network_mod}
use xpipe.Tests.Inputs.{endless}
use xpipe.Tests.System.{Descriptors, epoll, sockets}
use xpipe.Tests.SocketCalls.{server_calls}
use xpipe.Tests.Rounds.{traffic}

abbrev cf : NetConf
cf = record { port = 9876; conns = 4; nodelay = 1; request_buffer_size = 2048 }

abbrev pub garbage : Table
garbage = record {
  slots = λ i. new_connection i 0;
  pool = record { connection_pool = none; next = λ i. some 77; conn_fd = λ i. some 5 };
}

abbrev pub kernel : Descriptors
kernel = record { fds = λ g. none; arriving = accepted 9 ∷ [] }

abbrev started_with : Outcome epoll sockets server_calls endless
started_with = init_network_mod epoll sockets server_calls endless cf garbage kernel 0

-- a round with a report on the listening socket
abbrev round_result : Walked epoll sockets (client_handlers epoll sockets endless traffic 2048 1)
round_result =
    process_network_mod epoll sockets server_calls endless traffic cf (one_ready 4 started_with.2)
      started_with.2 started_with.1.table

abbrev world :
    Walked epoll sockets (client_handlers epoll sockets endless traffic 2048 1)
    → Descriptors × Table
world (done w) = w
world _ = (kernel, garbage)

-- the connection that was accepted is in the second slot
client_watched : (world round_result).0.fds 9 ≡ some (some (1, ev_read_event))
unfolding init_network_mod tcp_server_init take_slot get_slot tcp_get_connection
    connection_pool_init add_event process_events process_slot process_one tcp_server_accept call
client_watched = refl
