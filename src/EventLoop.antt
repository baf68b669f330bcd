-- ===== src/EventLoop.antt =====
-- A round of the server: `epoll_polling` (src/net/net_epoll.c) and the loop of `process_events`
-- (src/net/net_event.c) over the connections that were polled, which are linked through the same
-- `next` as the pool of connections.
pub mod Links
pub mod Walk
pub mod Consistent
pub mod Reports
pub mod Accepted
pub mod Polling
pub mod Pass
pub mod Rounds
pub mod Clients
pub mod Handled
pub mod Calm
pub mod Served
pub mod NoNull
pub mod Calls
use xpipe.Base.{ℕ, zero, suc, ◌≡◌, Bool, List, [], ◌∷◌, Option, none, some, ◌==◌, if◌then◌else◌}
use xpipe.Connection.{Events, Handler, Connection}
use xpipe.NetEvent.{Epoll}
use xpipe.NetEvent.Dispatch.{Dispatched, kept, closed, null_called, process_one}
use xpipe.TcpServer.ConnectionPool.{ConnectionPool, relink}
use xpipe.TcpServer.Accept.{Sockets, Table, put_slot, store, free_slot, tcp_server_accept}

-- an epoll beside the slots of all connections
abbrev pub with_table : Epoll → Epoll
with_table ep = record {
  Kernel = ep.Kernel × Table;
  ctl = λ o fd p e w. let (done, k) = ep.ctl o fd p e w.0 in (done, (k, w.1));
  interest = λ w. ep.interest w.0;
  refused = λ o fd p e w. ep.refused o fd p e w.0;
  accepted = λ o fd p e w. ep.accepted o fd p e w.0;
  mod_watched = λ fd p e w. ep.mod_watched fd p e w.0;
  del_watched = λ fd p e w. ep.del_watched fd p e w.0;
}

-- what `tcp_server_recv` and `tcp_server_send` do to their connection and to the system, and
-- `nodelay` of the server
pub record ClientHandlers (ep : Epoll) : Type 0 where
  pub recv : Connection → ep.Kernel → Connection × ep.Kernel
  pub send : Connection → ep.Kernel → Connection × ep.Kernel
  pub nodelay : ℕ

-- `conn->active_events = …` and the push to the front of `active_conns`
unfoldable pub poll_one : ℕ → Events → Option ℕ → Table → Table
unfolding relink
poll_one i e active t = record {
  slots = put_slot i (record (t.slots i) { active_events = e }) t.slots;
  pool = relink i active t.pool;
}

-- The `for` of `epoll_polling`, on the slots and events that `epoll_wait` gives, and the list that
-- it makes of them. There are none if `epoll_wait` fails.
unfoldable pub epoll_polling : List (ℕ × Events) → Option ℕ → Table → Option ℕ × Table
unfolding poll_one
epoll_polling [] active t = (active, t)
epoll_polling ((i, e) ∷ es) active t = epoll_polling es (some i) (poll_one i e active t)

module _ (ep : Epoll) (so : Sockets ep) (handlers : ClientHandlers ep) where
  -- what the system and the slots are
  abbrev pub World : Type 0
  World = ep.Kernel × Table

  -- the connection is left if `accept` does not return
  abbrev pub accept_on : Connection → World → Option (Bool × ep.Kernel × Table) → Connection × World
  accept_on c w none = (c, w)
  accept_on c w (some (ok, k, t)) = (c, (k, t))

  -- the three functions that a handler may be
  unfoldable pub call : Handler → Connection → World → Connection × World
  call Handler.tcp_server_accept c w =
      accept_on c w
        (tcp_server_accept ep so handlers.nodelay (suc (so.interruptions w.0)) c.conn_fd w.0 w.1)
  call Handler.tcp_server_recv c (k, t) = let (c', k') = handlers.recv c k in (c', (k', t))
  call Handler.tcp_server_send c (k, t) = let (c', k') = handlers.send c k in (c', (k', t))

  -- Behind the pass over the connection in slot `i`: the next one, which is read before the slot is
  -- given back, and the rest. There is no result if a handler was NULL.
  unfoldable pub slot_done : ℕ → Dispatched (with_table ep) call → Option (Option ℕ × World)
  slot_done i (kept c (k, t)) = some (t.pool.next i, (k, store i c t))
  slot_done i (closed c (k, t)) =
      some (t.pool.next i, (so.close_fd c.conn_fd k, free_slot i (store i c t)))
  slot_done i null_called = none

  unfoldable pub process_slot : ℕ → World → Option (Option ℕ × World)
  unfolding slot_done
  process_slot i w = slot_done i (process_one (with_table ep) call (w.1.slots i) w)

  -- how the `while` of `process_events` may end; `running` where the fuel does not last
  pub data Walked : Type 0 where
    done : World → Walked
    null_handler running : Walked

  -- the `while`, from `active_conn` on
  unfoldable pub walk : ℕ → Option ℕ → World → Walked
  walk zero none w = done w
  walk zero (some i) w = running
  walk (suc f) none w = done w
  walk (suc f) (some i) w = elim (process_slot i w) [
    | none ↦ null_handler
    | some (next, w') ↦ walk f next w'
  ]

  -- `process_events`, with `active_conns` empty at its start as at its end; `ready` is what
  -- `epoll_wait` gives, and the system as it is behind that
  unfoldable pub process_events : ℕ → List (ℕ × Events) → World → Walked
  unfolding walk epoll_polling
  process_events f ready (k, t) =
      let (active, t') = epoll_polling ready none t in walk f active (k, t')
