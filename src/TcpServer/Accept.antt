-- ===== src/TcpServer/Accept.antt =====
-- `tcp_server_accept` (src/net/tcp_server.c), over the slots of all connections and what the
-- system keeps of descriptors.
use xpipe.Base.{
  ℕ, zero, suc, ◌<◌, ◌≡◌, Bool, true, false, not, ◌||◌, Option, none, some, ◌==◌, if◌then◌else◌,
}
use xpipe.Connection.{Events, ev_none_event, ev_read_event, tcp_server_recv, Connection}
use xpipe.NetEvent.{Op, Epoll, add_event}
use xpipe.TcpServer.ConnectionPool.{ConnectionPool, tcp_get_connection, tcp_free_connection}

-- what a call of `accept` gives: a descriptor, EINTR, or another error
pub data Accepted : Type 0 where
  accepted : ℕ → Accepted
  interrupted refused : Accepted

abbrev pub opens : Accepted → ℕ → Bool
opens (accepted fd) g = g == fd
opens interrupted g = false
opens refused g = false

-- What the program uses of descriptors and sockets. `accept` takes the listening descriptor;
-- `set_nonblock` and `set_nodelay` are true for 0, `pool_created` and `address_memory` tell whether `mem_pool_create`
-- and `pmalloc` find memory. A descriptor that `accept` gives was not open. Closing a descriptor
-- stops the watching of its events, and what is not open is not watched. Only so many signals
-- interrupt `accept`.
pub record Sockets (ep : Epoll) : Type 0 where
  pub is_open : ep.Kernel → ℕ → Bool
  pub close_fd : ℕ → ep.Kernel → ep.Kernel
  pub accept : ℕ → ep.Kernel → Accepted × ep.Kernel
  pub set_nonblock : ℕ → ep.Kernel → Bool × ep.Kernel
  pub set_nodelay : ℕ → ep.Kernel → Bool × ep.Kernel
  pub pool_created : ep.Kernel → Bool × ep.Kernel
  pub address_memory : ep.Kernel → Bool × ep.Kernel
  pub interruptions : ep.Kernel → ℕ
  pub close-open :
      (fd : ℕ) (k : ep.Kernel) (g : ℕ)
      → is_open (close_fd fd k) g ≡ (if g == fd then false else is_open k g)
  pub close-interest :
      (fd : ℕ) (k : ep.Kernel) (g : ℕ)
      → ep.interest (close_fd fd k) g ≡ (if g == fd then none else ep.interest k g)
  pub closed_unwatched : (k : ep.Kernel) (g : ℕ) → is_open k g ≡ false → ep.interest k g ≡ none
  pub ctl-open :
      (o : Op) (fd p : ℕ) (e : Events) (k : ep.Kernel) (g : ℕ)
      → is_open (ep.ctl o fd p e k).1 g ≡ is_open k g
  pub accept-new :
      (s : ℕ) (k : ep.Kernel) (g : ℕ) → opens (accept s k).0 g ≡ true → is_open k g ≡ false
  pub accept-open :
      (s : ℕ) (k : ep.Kernel) (g : ℕ)
      → is_open (accept s k).1 g ≡ (opens (accept s k).0 g || is_open k g)
  pub accept-interest :
      (s : ℕ) (k : ep.Kernel) (g : ℕ) → ep.interest (accept s k).1 g ≡ ep.interest k g
  pub accept-interrupted :
      (s : ℕ) (k : ep.Kernel)
      → (accept s k).0 ≡ interrupted
      → interruptions (accept s k).1 < interruptions k
  pub nonblock-same :
      (fd : ℕ) (k : ep.Kernel) (g : ℕ)
      → (is_open (set_nonblock fd k).1 g ≡ is_open k g)
        × (ep.interest (set_nonblock fd k).1 g ≡ ep.interest k g)
  pub nodelay-same :
      (fd : ℕ) (k : ep.Kernel) (g : ℕ)
      → (is_open (set_nodelay fd k).1 g ≡ is_open k g)
        × (ep.interest (set_nodelay fd k).1 g ≡ ep.interest k g)
  pub pool-same :
      (k : ep.Kernel) (g : ℕ)
      → (is_open (pool_created k).1 g ≡ is_open k g)
        × (ep.interest (pool_created k).1 g ≡ ep.interest k g)
  pub address-same :
      (k : ep.Kernel) (g : ℕ)
      → (is_open (address_memory k).1 g ≡ is_open k g)
        × (ep.interest (address_memory k).1 g ≡ ep.interest k g)

-- the block of all connections, with their links; of a slot that is in the pool, only the links
-- mean something
pub record Table : Type 0 where
  pub slots : ℕ → Connection
  pub pool : ConnectionPool

abbrev pub put_slot : ℕ → Connection → (ℕ → Connection) → ℕ → Connection
put_slot i c f j = if j == i then c else f j

abbrev pub store : ℕ → Connection → Table → Table
store i c t = record t { slots = put_slot i c t.slots }

-- what `tcp_get_connection` makes of a slot
abbrev pub new_connection : ℕ → ℕ → Connection
new_connection i fd = record {
  address = i;
  conn_fd = fd;
  events = ev_none_event;
  active_events = ev_none_event;
  dead_events = ev_none_event;
  add_events = ev_none_event;
  close = false;
  is_listen = false;
  read_event_handler = none;
  write_event_handler = none;
  request = none;
}

abbrev pub cleared : ℕ → Option ℕ × ConnectionPool → Table → Option ℕ × Table
cleared fd (none, p) t = (none, record t { pool = p })
cleared fd (some i, p) t =
    (some i, record { slots = put_slot i (new_connection i fd) t.slots; pool = p })

-- `tcp_get_connection`, once it is known whether a memory pool came, and `tcp_free_connection`,
-- on the slots too
unfoldable pub get_slot : Bool → ℕ → Table → Option ℕ × Table
get_slot got fd t = cleared fd (tcp_get_connection got fd t.pool) t

abbrev pub free_slot : ℕ → Table → Table
free_slot i t = record t { pool = tcp_free_connection i t.pool }

module _ (ep : Epoll) (so : Sockets ep) where
  open ep use {Kernel}
  open so use {close_fd, accept, set_nonblock, set_nodelay, pool_created, address_memory}

  -- The `for` around `accept`; the descriptor, or `none` for an error. There is no result if the
  -- fuel runs out.
  unfoldable pub accept_loop : ℕ → ℕ → Kernel → Option (Option ℕ × Kernel)
  accept_loop zero s k = none
  accept_loop (suc f) s k =
      let (a, k') = accept s k in
      elim a [
        | accepted fd ↦ some (some fd, k')
        | interrupted ↦ accept_loop f s k'
        | refused ↦ some (none, k')
      ]

  abbrev pub asked : Option ℕ → ℕ → Kernel → Table → (Option ℕ × Table) × Kernel
  asked none fd k t = (get_slot false fd t, k)
  asked (some i) fd k t = let (got, k') = pool_created k in (get_slot got fd t, k')

  -- `tcp_get_connection`, which asks for a memory pool only if there is a slot
  unfoldable pub take_slot : ℕ → Kernel → Table → (Option ℕ × Table) × Kernel
  take_slot fd k t = asked t.pool.connection_pool fd k t

  -- behind `add_event`, for the slot `i`; true for TCP_SRV_OK
  unfoldable pub watched_slot : ℕ → Table → Bool × Connection × Kernel → Bool × Kernel × Table
  watched_slot i t (false, c, k) = (false, close_fd c.conn_fd k, free_slot i (store i c t))
  watched_slot i t (true, c, k) = let (got, k') = address_memory k in (got, k', store i c t)

  -- behind `tcp_get_connection`
  unfoldable pub with_slot : ℕ → Kernel → Option ℕ × Table → Bool × Kernel × Table
  unfolding watched_slot
  with_slot fd k (none, t) = (false, close_fd fd k, t)
  with_slot fd k (some i, t) =
      watched_slot i t (add_event ep (t.slots i) ev_read_event tcp_server_recv k)

  -- with `nodelay` of the server; that TCP_NODELAY cannot be set is only logged
  unfoldable pub without_delay : ℕ → ℕ → Kernel → Kernel
  without_delay nodelay fd k = let (set, k') = set_nodelay fd k in if nodelay == 0 then k else k'

  -- behind the `for`
  unfoldable pub with_descriptor : ℕ → Option ℕ → Kernel → Table → Bool × Kernel × Table
  unfolding with_slot take_slot without_delay
  with_descriptor nodelay none k t = (false, k, t)
  with_descriptor nodelay (some fd) k t =
      let (ready, k₁) = set_nonblock fd k in
      let (slot, k₂) = take_slot fd (without_delay nodelay fd k₁) t in
      if not ready then (false, close_fd fd k₁, t) else with_slot fd k₂ slot

  -- `tcp_server_accept`, with `nodelay` of the server and the listening descriptor
  unfoldable pub tcp_server_accept : ℕ → ℕ → ℕ → Kernel → Table → Option (Bool × Kernel × Table)
  unfolding accept_loop with_descriptor
  tcp_server_accept nodelay f s k t = elim (accept_loop f s k) [
    | none ↦ none
    | some (fd, k') ↦ some (with_descriptor nodelay fd k' t)
  ]
