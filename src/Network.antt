-- ===== src/Network.antt =====
-- The network module: `epoll_build` and `epoll_destroy` (src/net/net_epoll.c), `net_event_init`
-- (src/net/net_event.c), and `init_network_mod` and `process_network_mod` (src/net/network.c).
pub mod Fresh
pub mod Started
pub mod Serving
use xpipe.Base.{ℕ, ◌*◌, ◌/◌, Bool, true, false, List, Option, none, some, null, ◌==◌, if◌then◌else◌}
use xpipe.Allocator.{Allocator}
use xpipe.Connection.{Events, ev_read_event, Handler, Connection}
use xpipe.NetEvent.{Epoll, add_event}
use xpipe.Conf.Settings.{NetConf}
use xpipe.TcpServer.Accept.{Sockets, Table, store, free_slot, take_slot}
use xpipe.TcpServer.Setup.{ServerCalls, TcpServer, tcp_server_init}

-- sizes of `epoll_ctx_t`, `struct epoll_event`, `net_event_driver_t` and `tcp_server_t`
abbrev pub ctx_size : ℕ
ctx_size = 16

abbrev pub epoll_event_size : ℕ
epoll_event_size = 12

abbrev pub driver_size : ℕ
driver_size = 48

abbrev pub server_size : ℕ
server_size = 72

-- `server->port = cf->port; …`, of what the memory of the server held
abbrev pub configured : NetConf → Table → TcpServer
configured cf t = record {
  port = cf.port;
  connections = cf.conns;
  nodelay = cf.nodelay;
  request_buf_size = cf.request_buffer_size;
  sock_fd = none;
  table = t;
}

module _ (ep : Epoll) (so : Sockets ep) (sc : ServerCalls ep so) (al : Allocator) where
  open ep use {Kernel}
  open so use {close_fd}
  open sc use {epoll_create}
  open al use {Pool, alloc}

  abbrev pub with_ctx : ℕ → Option ℕ × Kernel → Pool → Option ℕ × Kernel × Pool
  with_ctx size (none, k) p = (none, k, p)
  with_ctx size (some fd, k) p =
      let (events, p') = alloc (epoll_event_size * size) p in
      if events == null then (none, k, p') else (some fd, k, p')

  -- `epoll_build`, with `event_driver->size`; `epoll_fd`, or `none` for EVENT_ERROR
  unfoldable pub epoll_build : ℕ → Kernel → Pool → Option ℕ × Kernel × Pool
  epoll_build size k p =
      let (ctx, p') = alloc ctx_size p in
      if ctx == null then (none, k, p') else with_ctx size (epoll_create size k) p'

  -- `epoll_destroy`, which nothing calls
  abbrev pub epoll_destroy : ℕ → Kernel → Kernel
  epoll_destroy fd k = close_fd fd k

  -- `net_event_init`; that `active_conns` is NULL is what `EventLoop.process_events` starts with
  abbrev pub net_event_init : ℕ → Kernel → Pool → Option ℕ × Kernel × Pool
  net_event_init size k p = epoll_build size k p

  -- how `init_network_mod` ends: true for MOD_OK
  abbrev pub Outcome : Type 0
  Outcome = Bool × TcpServer × Kernel × Pool

  -- behind `add_event`, for the slot `i` of the socket
  abbrev pub listening : ℕ → TcpServer → Pool → Bool × Connection × Kernel → Outcome
  listening i s p (true, c, k) = (true, record s { table = store i c s.table }, k, p)
  listening i s p (false, c, k) =
      (false, record s { table = free_slot i (store i c s.table) }, close_fd c.conn_fd k, p)

  -- behind `tcp_get_connection`
  abbrev pub with_connection : TcpServer → Pool → (Option ℕ × Table) × Kernel → Outcome
  with_connection s p ((none, t), k) = (false, record s { table = t }, k, p)
  with_connection s p ((some i, t), k) =
      let c = record (t.slots i) { is_listen = true } in
      listening i (record s { table = store i c t }) p
        (add_event ep c ev_read_event Handler.tcp_server_accept k)

  -- `tcp_get_connection(server, server->sock_fd)`
  abbrev pub with_sock : Option ℕ → TcpServer → Kernel → Pool → Outcome
  with_sock none s k p = (false, s, k, p)
  with_sock (some fd) s k p = with_connection s p (take_slot ep so fd k s.table)

  -- behind `tcp_server_init`
  abbrev pub with_server : Outcome → Outcome
  with_server (true, s, k, p) = with_sock s.sock_fd s k p
  with_server (false, s, k, p) = (false, s, k, p)

  -- behind `net_event_init`
  abbrev pub with_driver : NetConf → Table → Option ℕ × Kernel × Pool → Outcome
  with_driver cf t (none, k, p) = (false, configured cf t, k, p)
  with_driver cf t (some e_fd, k, p) =
      let (server, p') = alloc server_size p in
      if server == null
      then (false, configured cf t, k, p')
      else with_server (tcp_server_init ep so sc al (configured cf t) k p')

  -- `init_network_mod`, with what the memory of the server and of its connections held
  unfoldable pub init_network_mod : NetConf → Table → Kernel → Pool → Outcome
  unfolding epoll_build
  init_network_mod cf t k p =
      let (driver, p') = alloc driver_size p in
      if driver == null
      then (false, configured cf t, k, p')
      else with_driver cf t (net_event_init (cf.conns / 2) k p')
