-- ===== src/Network/Serving.antt =====
-- The server from its start on: `init_network_mod`, and then `process_network_mod`
-- (src/net/network.c) as often as the program calls it.
use xpipe.Base.{ℕ, ◌≡◌, ◌∙◌, sym, true, List, [], length}
use xpipe.Allocator.{Allocator}
use xpipe.Connection.{Events}
use xpipe.NetEvent.{Epoll}
use xpipe.Conf.Settings.{NetConf}
use xpipe.TcpServer.Accept.{Sockets, Table}
use xpipe.TcpServer.Descriptors.{SameDescriptors}
use xpipe.TcpServer.Setup.{ServerCalls}
use xpipe.EventLoop.{Walked, done, process_events}
use xpipe.EventLoop.Reports.{Reported}
use xpipe.EventLoop.Consistent.{IsConsistent}
use xpipe.EventLoop.Clients.{Traffic, client_handlers}
use xpipe.Network.{init_network_mod}
use xpipe.Network.Started.{Started}

module _ (ep : Epoll) (so : Sockets ep) (sc : ServerCalls ep so) (al : Allocator)
    (tr : Traffic ep so al) (cf : NetConf) where
  open ep use {Kernel}
  open al use {Pool}

  -- `process_network_mod`: it fails only if `process_events` does, which never says so
  abbrev pub process_network_mod :
      List (ℕ × Events)
      → Kernel
      → Table
      → Walked ep so (client_handlers ep so al tr cf.request_buffer_size cf.nodelay)
  process_network_mod ready k t =
      process_events ep so (client_handlers ep so al tr cf.request_buffer_size cf.nodelay)
        (length ready) ready (k, t)

  -- What the server may come to: it has started, or has gone through one more round. Between two
  -- rounds the system goes on, but opens, closes and watches no descriptor. What it reports then is
  -- of descriptors that are watched.
  pub data Serving : Kernel → Table → Type 0 where
    started :
        (t : Table) (k : Kernel) (p : Pool)
        → (init_network_mod ep so sc al cf t k p).0 ≡ true
        → Serving
            (init_network_mod ep so sc al cf t k p).2
            (init_network_mod ep so sc al cf t k p).1.table
    round :
        {k : Kernel} {t : Table}
        → Serving k t
        → (k' : Kernel) (ready : List (ℕ × Events)) (k₂ : Kernel) (t₂ : Table)
        → SameDescriptors ep so k k'
        → Reported ep k' [] ready
        → process_network_mod ready k' t ≡ done (k₂, t₂)
        → Serving k₂ t₂

  pub same-IsConsistent :
      (n : ℕ) (k k' : Kernel) (t : Table) (used : List ℕ)
      → SameDescriptors ep so k k'
      → IsConsistent ep so n k t used
      → IsConsistent ep so n k' t used
  same-IsConsistent n k k' t used same v = record {
    partition = v.partition;
    registered = λ i u. (same (t.slots i).conn_fd).1 ∙ v.registered i u;
    opened = λ i u. (same (t.slots i).conn_fd).0 ∙ v.opened i u;
    apart = v.apart;
    placed = v.placed;
    owned = λ g p e h. v.owned g p e (sym (same g).1 ∙ h);
  }
