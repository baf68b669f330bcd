-- ===== src/EventLoop/Calls.antt =====
-- The handlers of src/net/tcp_server.c in a round of `process_events` (src/net/net_event.c) that
-- calls no NULL.
use xpipe.Base.{ℕ, ◌≤◌, ◌≡◌, subst, List, [], length}
use xpipe.Allocator.{Allocator}
use xpipe.Connection.{Events}
use xpipe.NetEvent.{Epoll}
use xpipe.TcpServer.Accept.{Sockets, Table}
use xpipe.EventLoop.{done, process_events}
use xpipe.EventLoop.Consistent.{IsConsistent}
use xpipe.EventLoop.Reports.{Reported, Reported-within}
use xpipe.EventLoop.Rounds.{Stays}
use xpipe.EventLoop.Clients.{Traffic, client_handlers, clients-LeaveDescriptors, round-IsConsistent}
use xpipe.EventLoop.NoNull.{Single, AllHandled, process_events-AllHandled}

module _ (ep : Epoll) (so : Sockets ep) (al : Allocator) (tr : Traffic ep so al)
    (size nodelay n : ℕ) where
  pub round-AllHandled :
      (f : ℕ) (ready : List (ℕ × Events)) (k : ep.Kernel) (t : Table) (used : List ℕ)
      → IsConsistent ep so n k t used
      → AllHandled n t
      → Reported ep k [] ready
      → Single ready
      → length ready ≤ f
      → (w : ep.Kernel × Table) × (process_events ep so
            (client_handlers ep so al tr size nodelay)
            f
            ready
            (k, t)
          ≡ done w)
        × ((used' : List ℕ) × IsConsistent ep so n w.0 w.1 used')
        × AllHandled n w.1
  round-AllHandled f ready k t used v all r s l =
      let (w, e, all') =
        process_events-AllHandled ep so (client_handlers ep so al tr size nodelay)
          (clients-LeaveDescriptors ep so al tr size nodelay) n f ready k t used v all r s l in
      let stays =
        round-IsConsistent ep so al tr size nodelay n f ready k t used v
          (Reported-within ep so n k t used v ready r) l in
      (w, e, subst (Stays ep so (client_handlers ep so al tr size nodelay) n) e stays, all')
