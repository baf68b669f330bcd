-- ===== src/EventLoop/Clients.antt =====
-- A round of `process_events` (src/net/net_event.c) with the handlers of src/net/tcp_server.c.
use xpipe.Base.{ℕ, ◌≤◌, refl, List, [], Option, none, some, Bytes, count, length}
use xpipe.Memory.{Mem}
use xpipe.Allocator.{Allocator}
use xpipe.Connection.{Events, Connection}
use xpipe.NetEvent.{Epoll}
use xpipe.TcpServer.{Wrote, Sending, tcp_server_send}
use xpipe.TcpServer.Process.{Got, tcp_server_recv}
use xpipe.TcpServer.KeepsEvents.{
  Leaves, unchanged, Keeps, KeepsOf, handlers-Keep, tcp_server_send-Keeps,
}
use xpipe.TcpServer.Accept.{Sockets, Table}
use xpipe.TcpServer.Descriptors.{SameDescriptors}
use xpipe.EventLoop.{ClientHandlers, process_events}
use xpipe.EventLoop.Links.{newest_first}
use xpipe.EventLoop.Consistent.{IsConsistent}
use xpipe.EventLoop.Pass.{LeaveDescriptors}
use xpipe.EventLoop.Rounds.{Stays, process_events-IsConsistent}

module _ (ep : Epoll) (so : Sockets ep) (al : Allocator) where
  open ep use {Kernel}
  open al use {Pool}

  -- What passes through descriptors: what `read` gives, what `write` answers, the pool of the
  -- connection's request and the one that `mem_pool_create` would give, and the memory. `behind` is
  -- the system after a call that sent these bytes, left these answers and made this of the pool
  -- and the memory. Reading and writing open and watch no descriptor.
  pub record Traffic : Type 0 where
    pub reads : ℕ → Kernel → Got
    pub writes : ℕ → Kernel → List Wrote
    pub request_pool : ℕ → Kernel → Pool
    pub new_pool : Kernel → Option Pool
    pub memory : Kernel → Mem
    pub behind : ℕ → Bytes → List Wrote → Pool → Mem → Kernel → Kernel
    pub behind-same :
        (fd : ℕ) (sent : Bytes) (ws : List Wrote) (p : Pool) (m : Mem) (k : Kernel)
        → SameDescriptors ep so k (behind fd sent ws p m k)

  module _ (tr : Traffic) where
    -- a call that still waits for the system has changed nothing
    abbrev received : Connection → Kernel → Option (Sending × Pool × Mem) → Connection × Kernel
    received c k none = (c, k)
    received c k (some (s, p, m)) = (s.conn, tr.behind c.conn_fd s.sent s.answers p m k)

    abbrev sent : Connection → Kernel → Option Sending → Connection × Kernel
    sent c k none = (c, k)
    sent c k (some s) =
        (s.conn, tr.behind c.conn_fd s.sent s.answers (tr.request_pool c.conn_fd k) (tr.memory k) k)

    -- `tcp_server_recv` and `tcp_server_send` in the loop, with the configured size of requests
    -- and `nodelay`
    abbrev pub client_handlers : ℕ → ℕ → ClientHandlers ep
    client_handlers size nodelay = record {
      nodelay = nodelay;
      recv = λ c k. received c k (
          tcp_server_recv al size (tr.new_pool k) (tr.reads c.conn_fd k) (tr.writes c.conn_fd k) c
            (tr.request_pool c.conn_fd k) (tr.memory k));
      send = λ c k. sent c k (tcp_server_send (tr.writes c.conn_fd k) c);
    }

    received-Leaves :
        (c : Connection) (k : Kernel) (o : Option (Sending × Pool × Mem))
        → KeepsOf al c o
        → Leaves c (received c k o).0 × SameDescriptors ep so k (received c k o).1
    received-Leaves c k none h = (unchanged c, λ g. (refl, refl))
    received-Leaves c k (some (s, p, m)) h = (h, tr.behind-same c.conn_fd s.sent s.answers p m k)

    sent-Leaves :
        (c : Connection) (k : Kernel) (o : Option Sending)
        → Keeps c o
        → Leaves c (sent c k o).0 × SameDescriptors ep so k (sent c k o).1
    sent-Leaves c k none h = (unchanged c, λ g. (refl, refl))
    sent-Leaves c k (some s) h = (h, tr.behind-same c.conn_fd s.sent s.answers _ _ k)

    pub clients-LeaveDescriptors :
        (size nodelay : ℕ) → LeaveDescriptors ep so (client_handlers size nodelay)
    clients-LeaveDescriptors size nodelay = record {
      recv-leaves = λ c k.
          received-Leaves c k _
            (handlers-Keep al size (tr.new_pool k) (tr.reads c.conn_fd k) (tr.writes c.conn_fd k) c
              (tr.request_pool c.conn_fd k) (tr.memory k)).0;
      send-leaves = λ c k. sent-Leaves c k _ (tcp_server_send-Keeps (tr.writes c.conn_fd k) c);
    }

    -- Let each slot be in the pool or handed out, and let the connections that are handed out have
    -- descriptors of their own, open and watched for just the events that they say. Let the system
    -- report slots at most once and only those that are handed out. Then the same holds behind a
    -- round of `process_events`, with as much fuel as there are reports, of the connections that
    -- are handed out then, through all that `tcp_server_accept`, `tcp_server_recv` and
    -- `tcp_server_send` do in it, whatever the system answers them. Or the round meets a handler
    -- that is NULL.
    pub round-IsConsistent :
        (size nodelay n f : ℕ) (ready : List (ℕ × Events)) (k : Kernel) (t : Table) (used : List ℕ)
        → IsConsistent ep so n k t used
        → ((j : ℕ) → count j (newest_first ready []) ≤ count j used)
        → length ready ≤ f
        → Stays ep so
            (client_handlers size nodelay)
            n
            (process_events ep so (client_handlers size nodelay) f ready (k, t))
    round-IsConsistent size nodelay n f ready k t used =
        process_events-IsConsistent ep so (client_handlers size nodelay)
          (clients-LeaveDescriptors size nodelay) n f ready k t used
