-- ===== src/Tests/Connections.antt =====
-- Connections, requests and events (src/net/tcp_server.c, src/net/net_event.c) on concrete inputs.
use xpipe.Base.{
  ℕ, ◌≡◌, ◌≢◌, refl, arith, Bool, true, false, [], Option, none, some, ◌==◌, if◌then◌else◌,
}
use xpipe.Protocol.{protocol_init}
use xpipe.Connection.{
  Events, ev_none_event, ev_read_event, ev_both_events, Handler, tcp_server_recv, Buffer, Request,
  Connection,
}
use xpipe.NetEvent.{Op, ctl_add, ctl_mod, ctl_del, changed, Epoll}
use xpipe.NetEvent.Dispatch.{process_one}
use xpipe.NetEvent.Watched.{Watched, process_one-Watched}
use xpipe.TcpServer as Server
use xpipe.TcpServer.{Wrote, broken}
use xpipe.TcpServer.Process.{Got, received}
use xpipe.TcpServer.Room.{Received, tcp_server_recv-Readable}
use xpipe.TcpServer.ConnectionPool.{ConnectionPool, connection_pool_init, tcp_get_connection}
use xpipe.Tests.Inputs.{codes, endless}

abbrev Watching : Type 0
Watching = ℕ → Option (ℕ × Events)

abbrev watch : ℕ → Option (ℕ × Events) → Watching → Watching
watch fd v k g = if g == fd then v else k g

abbrev answer : Op → ℕ → ℕ → Events → Watching → Option (ℕ × Events) → Bool × Watching
answer ctl_add fd p e k none = (true, watch fd (some (p, e)) k)
answer ctl_add fd p e k (some f) = (false, k)
answer o fd p e k none = (false, k)
answer o fd p e k (some f) = (true, watch fd (changed o p e) k)

abbrev ctl : Op → ℕ → ℕ → Events → Watching → Bool × Watching
ctl o fd p e k = answer o fd p e k (k fd)

refused :
    (o : Op) (fd p : ℕ) (e : Events) (k : Watching) (v : Option (ℕ × Events))
    → (answer o fd p e k v).0 ≡ false
    → (g : ℕ) → (answer o fd p e k v).1 g ≡ k g
refused ctl_add fd p e k none h g = cc
refused ctl_add fd p e k (some f) h g = refl
refused ctl_mod fd p e k none h g = refl
refused ctl_mod fd p e k (some f) h g = cc
refused ctl_del fd p e k none h g = refl
refused ctl_del fd p e k (some f) h g = cc

accepted :
    (o : Op) (fd p : ℕ) (e : Events) (k : Watching) (v : Option (ℕ × Events))
    → (answer o fd p e k v).0 ≡ true
    → (g : ℕ) → (answer o fd p e k v).1 g ≡ (if g == fd then changed o p e else k g)
accepted ctl_add fd p e k none h g = refl
accepted ctl_add fd p e k (some f) h g = cc
accepted ctl_mod fd p e k none h g = cc
accepted ctl_mod fd p e k (some f) h g = refl
accepted ctl_del fd p e k none h g = cc
accepted ctl_del fd p e k (some f) h g = refl

changes :
    (fd p : ℕ) (e : Events) (k : Watching) (v : Option (ℕ × Events))
    → v ≢ none
    → ((answer ctl_mod fd p e k v).0 ≡ true) × ((answer ctl_del fd p e k v).0 ≡ true)
changes fd p e k none h = absurd (h refl)
changes fd p e k (some f) h = (refl, refl)

abbrev epoll : Epoll
epoll = record {
  Kernel = Watching;
  ctl = ctl;
  interest = λ k. k;
  refused = λ o fd p e k h. refused o fd p e k (k fd) h;
  accepted = λ o fd p e k h. accepted o fd p e k (k fd) h;
  mod_watched = λ fd p e k h. (changes fd p e k (k fd) h).0;
  del_watched = λ fd p e k h. (changes fd p e k (k fd) h).1;
}

abbrev buffer : Buffer
buffer = record { buffer = 1000; last = 1000; end = 2024 }

abbrev request : Request
request = record {
  protocol = protocol_init;
  last_buffer = buffer;
  response = codes "ok\r\n";
  done = true;
  finish = false;
  error = false;
}

abbrev conn : Connection
conn = record {
  address = 0;
  conn_fd = 7;
  events = ev_read_event;
  active_events = ev_read_event;
  dead_events = ev_none_event;
  add_events = ev_none_event;
  close = false;
  is_listen = false;
  read_event_handler = some tcp_server_recv;
  write_event_handler = none;
  request = some request;
}

abbrev kernel : Watching
kernel = watch 7 (some (0, ev_read_event)) (λ g. none)

-- a handler that finds the client gone
abbrev hang_up : Handler → Connection → Watching → Connection × Watching
hang_up h c k = (record c { close = true; dead_events = ev_both_events }, k)

process_one-Watched_example : Watched epoll hang_up (process_one epoll hang_up conn kernel)
process_one-Watched_example = process_one-Watched epoll hang_up (λ h c k r. r) conn kernel refl

tcp_server_recv-Readable_example : Received endless (
    xpipe.TcpServer.Process.tcp_server_recv endless 0
      (some 5000)
      (received (codes "LIST"))
      []
      (record conn { request = none })
      0
      (λ a. 0))
unfolding xpipe.TcpServer.Process.clamp_size
tcp_server_recv-Readable_example =
    tcp_server_recv-Readable endless 0 (some 5000) (received (codes "LIST")) []
      (record conn { request = none }) 0 (λ a. 0) tt (omega arith)

abbrev two_slots : ConnectionPool
two_slots = connection_pool_init 2 (λ i. none) (λ i. none)

abbrev one_left : ConnectionPool
one_left = (tcp_get_connection true 7 two_slots).1
