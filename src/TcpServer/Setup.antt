-- ===== src/TcpServer/Setup.antt =====
-- `tcp_server_init` and what it calls (src/net/tcp_server.c): the listening socket and the pool of
-- connections.
use xpipe.Base.{
  ℕ, ◌*◌, ◌%◌, ◌^◌, ◌≡◌, Bool, true, false, not, ◌||◌, Option, none, some, null, ◌==◌,
  if◌then◌else◌,
}
use xpipe.Allocator.{Allocator}
use xpipe.NetEvent.{Epoll}
use xpipe.TcpServer.ConnectionPool.{connection_pool_init}
use xpipe.TcpServer.Accept.{Sockets, Table}
use xpipe.TcpServer.Descriptors.{SameDescriptors}

-- sizeof(tcp_connection_t)
abbrev pub connection_size : ℕ
connection_size = 120

-- whether a call that gives a descriptor, or none if it fails, has opened `g`
abbrev pub gives : Option ℕ → ℕ → Bool
gives none g = false
gives (some fd) g = g == fd

-- What the program uses of the system to set up its sockets; `true` is 0 and `none` is -1. The
-- descriptors that `socket` and `epoll_create` give were not open, and the other calls open none.
-- A new epoll watches nothing, and `epoll_create` fails for the size 0.
pub record ServerCalls (ep : Epoll) (so : Sockets ep) : Type 0 where
  pub socket : ep.Kernel → Option ℕ × ep.Kernel
  pub reuse_address : ℕ → ep.Kernel → Bool × ep.Kernel
  pub bind : ℕ → ℕ → ep.Kernel → Bool × ep.Kernel
  pub listen : ℕ → ep.Kernel → Bool × ep.Kernel
  pub epoll_create : ℕ → ep.Kernel → Option ℕ × ep.Kernel
  pub socket-new : (k : ep.Kernel) (g : ℕ) → gives (socket k).0 g ≡ true → so.is_open k g ≡ false
  pub socket-open :
      (k : ep.Kernel) (g : ℕ) → so.is_open (socket k).1 g ≡ (gives (socket k).0 g || so.is_open k g)
  pub socket-interest : (k : ep.Kernel) (g : ℕ) → ep.interest (socket k).1 g ≡ ep.interest k g
  pub reuse_address-same : (fd : ℕ) (k : ep.Kernel) → SameDescriptors ep so k (reuse_address fd k).1
  pub bind-same : (fd port : ℕ) (k : ep.Kernel) → SameDescriptors ep so k (bind fd port k).1
  pub listen-same : (fd : ℕ) (k : ep.Kernel) → SameDescriptors ep so k (listen fd k).1
  pub epoll_create-new :
      (size : ℕ) (k : ep.Kernel) (g : ℕ)
      → gives (epoll_create size k).0 g ≡ true
      → so.is_open k g ≡ false
  pub epoll_create-open :
      (size : ℕ) (k : ep.Kernel) (g : ℕ)
      → so.is_open (epoll_create size k).1 g ≡ (gives (epoll_create size k).0 g || so.is_open k g)
  pub epoll_create-fresh :
      (size : ℕ) (k : ep.Kernel) (fd : ℕ)
      → (epoll_create size k).0 ≡ some fd
      → (g : ℕ) → ep.interest (epoll_create size k).1 g ≡ none
  pub epoll_create-zero : (k : ep.Kernel) → (epoll_create 0 k).0 ≡ none

-- of a `tcp_server_t`, its configuration, its socket and its connections
pub record TcpServer : Type 0 where
  pub port : ℕ
  pub connections : ℕ
  pub nodelay : ℕ
  pub request_buf_size : ℕ
  pub sock_fd : Option ℕ
  pub table : Table

module _ (ep : Epoll) (so : Sockets ep) (sc : ServerCalls ep so) (al : Allocator) where
  open ep use {Kernel}
  open so use {close_fd}
  open sc use {socket, reuse_address, bind, listen}
  open al use {Pool, alloc}

  -- `tcp_server_create_socket`; `none` for TCP_SRV_ERROR
  abbrev pub reusable : TcpServer → ℕ → Bool × Kernel → Option ℕ × TcpServer × Kernel
  reusable s fd (true, k) = (some fd, record s { sock_fd = some fd }, k)
  reusable s fd (false, k) = (none, s, close_fd fd k)

  unfoldable pub tcp_server_create_socket : TcpServer → Kernel → Option ℕ × TcpServer × Kernel
  tcp_server_create_socket s k =
      let (fd, k') = socket k in
      elim fd [ none ↦ (none, s, k') | some g ↦ reusable s g (reuse_address g k') ]

  -- `tcp_server_listen`, true for TCP_SRV_OK; `htons` takes the low 16 bits of the port
  unfoldable pub tcp_server_listen : TcpServer → ℕ → Kernel → Bool × Kernel
  tcp_server_listen s fd k =
      let (bound, k₁) = bind fd (s.port % 2 ^ 16) k in
      let (done, k₂) = listen fd k₁ in if not bound then (false, k₁) else (done, k₂)

  -- `connection_pool_init`, with the memory for the connections
  unfoldable pub init_pool : TcpServer → Pool → Bool × TcpServer × Pool
  init_pool s p =
      let (a, p') = alloc (connection_size * s.connections) p in
      let t = s.table in
      let pool = connection_pool_init s.connections t.pool.next t.pool.conn_fd in
      if a == null
      then (false, s, p')
      else (true, record s { table = record t { pool = pool } }, p')

  abbrev pub pooled : ℕ → Kernel → Bool × TcpServer × Pool → Bool × TcpServer × Kernel × Pool
  pooled fd k (true, s, p) = (true, s, k, p)
  pooled fd k (false, s, p) = (false, s, close_fd fd k, p)

  abbrev pub listened : TcpServer → ℕ → Pool → Bool × Kernel → Bool × TcpServer × Kernel × Pool
  listened s fd p (true, k) = pooled fd k (init_pool s p)
  listened s fd p (false, k) = (false, s, close_fd fd k, p)

  abbrev pub with_socket : Pool → Option ℕ × TcpServer × Kernel → Bool × TcpServer × Kernel × Pool
  with_socket p (none, s, k) = (false, s, k, p)
  with_socket p (some fd, s, k) = listened s fd p (tcp_server_listen s fd k)

  -- `tcp_server_init`, true for TCP_SRV_OK
  unfoldable pub tcp_server_init : TcpServer → Kernel → Pool → Bool × TcpServer × Kernel × Pool
  unfolding tcp_server_create_socket tcp_server_listen init_pool
  tcp_server_init s k p = with_socket p (tcp_server_create_socket s k)
