-- ===== src/Tests/Rounds.antt =====
-- Rounds of the server (src/net/net_event.c, src/net/tcp_server.c) on concrete inputs.
use xpipe.Base.{ℕ, ◌≡◌, refl, arith, Bool, true, List, [], ◌∷◌, none, some, ◌==◌, if◌then◌else◌}
use xpipe.Connection.{Events, ev_read_event, ev_both_events, Handler, Connection}
use xpipe.TcpServer.Slots.{Partition}
use xpipe.TcpServer.Accept.{interrupted, accepted, Table, new_connection, tcp_server_accept}
use xpipe.TcpServer.Owned.{Owned, tcp_server_accept-Owned}
use xpipe.EventLoop.{ClientHandlers, epoll_polling, process_events}
use xpipe.EventLoop.Walk.{serve, ended, Settled, process_events-serve}
use xpipe.EventLoop.Clients.{Traffic}
use xpipe.TcpServer.Process.{received}
use xpipe.Tests.Inputs.{codes, endless}
use xpipe.Tests.System.{Descriptors, epoll, sockets}

-- a slot that listens on the descriptor 4, one with a client on 7, and one in the pool
abbrev conns : ℕ → Connection
conns i =
    if i == 0
    then record (new_connection 0 4) {
      events = ev_read_event;
      is_listen = true;
      read_event_handler = some Handler.tcp_server_accept;
    }
    else record (new_connection i 7) {
      events = ev_read_event;
      read_event_handler = some Handler.tcp_server_recv;
    }

abbrev table : Table
table = record {
  slots = conns;
  pool = record {
    connection_pool = some 2;
    next = λ i. none;
    conn_fd = λ i. if i == 0 then some 4 else if i == 1 then some 7 else none;
  };
}

-- a signal, and then a client
abbrev kernel : Descriptors
kernel = record {
  fds = λ g.
      if g == 4
      then some (some (0, ev_read_event))
      else if g == 7
      then some (some (1, ev_read_event))
      else none;
  arriving = interrupted ∷ accepted 9 ∷ [];
}

-- the client is found to be gone
abbrev handlers : ClientHandlers epoll
handlers = record {
  recv = λ c k. (record c { close = true; dead_events = ev_both_events }, k);
  send = λ c k. (c, k);
  nodelay = 1;
}

partition : Partition 3 table.pool (0 ∷ 1 ∷ [])
partition = (2 ∷ [], (refl, refl), λ j. ground arith)

abbrev ready : List (ℕ × Events)
ready = (1, ev_read_event) ∷ (0, ev_read_event) ∷ []

tcp_server_accept-Owned_example :
    (r : Bool × Descriptors × Table) × (tcp_server_accept epoll sockets 1 3 4 kernel table ≡ some r)
    × Owned epoll sockets 3 kernel table (0 ∷ 1 ∷ []) r
tcp_server_accept-Owned_example =
    tcp_server_accept-Owned epoll sockets 3 1 3 4 kernel table (0 ∷ 1 ∷ []) partition (omega arith)

process_events-serve_example :
    (process_events epoll sockets handlers 2 ready (kernel, table)
      ≡ ended epoll sockets handlers
          (serve epoll sockets handlers (0 ∷ 1 ∷ []) (kernel, (epoll_polling ready none table).1)))
    × Settled epoll sockets handlers 3
        (process_events epoll sockets handlers 2 ready (kernel, table))
process_events-serve_example =
    process_events-serve epoll sockets handlers 3 2 ready kernel table (0 ∷ 1 ∷ []) partition
      (λ j. ground arith) (omega arith)

-- the client sends four bytes
abbrev pub traffic : Traffic epoll sockets endless
traffic = record {
  reads = λ fd k. received (codes "LIST");
  writes = λ fd k. [];
  request_pool = λ fd k. 0;
  new_pool = λ k. some 5000;
  memory = λ k a. 0;
  behind = λ fd sent ws p m k. k;
  behind-same = λ fd sent ws p m k g. (refl, refl);
}
