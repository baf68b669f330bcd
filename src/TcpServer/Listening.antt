-- ===== src/TcpServer/Listening.antt =====
-- What `tcp_server_init` (src/net/tcp_server.c) leaves behind, whether it succeeds or fails.
use xpipe.Base.{
  ℕ, suc, ◌-◌, ◌*◌, ◌%◌, ◌^◌, ◌<◌, ◌≡◌, refl, arith, Bool, true, false, [], Option, none, some,
  null, ◌==◌, Bool-cases, Option-cases, inl, inr,
}
use xpipe.Allocator.{Allocator}
use xpipe.NetEvent.{Epoll}
use xpipe.TcpServer.ConnectionPool.{connection_pool_init}
use xpipe.TcpServer.Slots.{Partition, init-Partition}
use xpipe.TcpServer.Accept.{Sockets}
use xpipe.TcpServer.Descriptors.{SameDescriptors, Opened, closed-Opened, Opened-later}
use xpipe.TcpServer.Setup.{
  connection_size, pooled, listened, with_socket, ServerCalls, TcpServer, tcp_server_create_socket,
  tcp_server_listen, init_pool, tcp_server_init,
}

module _ (ep : Epoll) (so : Sockets ep) (sc : ServerCalls ep so) (al : Allocator) where
  open ep use {Kernel, interest}
  open so use {is_open}
  open al use {Pool}

  -- the server has a socket that was not open, and all its connections are in the pool
  abbrev pub Listening : TcpServer → Kernel → TcpServer → Kernel → Type 0
  Listening s k s' k' =
      (fd : ℕ) × (s'.sock_fd ≡ some fd)
      × Opened ep so fd k k'
      × (0 < s.connections → Partition s.connections s'.table.pool [])

  abbrev pub Initialised : TcpServer → Kernel → Bool × TcpServer × Kernel × Pool → Type 0
  Initialised s k (true, s', k', p') = Listening s k s' k'
  Initialised s k (false, s', k', p') = SameDescriptors ep so k k'

  given-Opened :
      (k : Kernel) (fd : ℕ) → (sc.socket k).0 ≡ some fd → Opened ep so fd k (sc.socket k).1
  given-Opened k fd e = (
    sc.socket-new k fd (ground (arith, e)),
    λ g. let o = sc.socket-open k g in ground (arith, o, e),
    sc.socket-interest k,
  )

  pool-Partition :
      (n : ℕ) (f g : ℕ → Option ℕ) → 0 < n → Partition n (connection_pool_init n f g) []
  pool-Partition n f g h =
      let e : n ≡ suc (n - 1) = omega arith in rw e (init-Partition (n - 1) f g)

  SameDescriptors-trans :
      (k k₁ k₂ : Kernel)
      → SameDescriptors ep so k k₁
      → SameDescriptors ep so k₁ k₂
      → SameDescriptors ep so k k₂
  SameDescriptors-trans k k₁ k₂ s t g =
      let a = s g in let b = t g in (ground (arith, a, b), ground (arith, a, b))

  -- what `tcp_server_create_socket` leaves
  abbrev Created : TcpServer → Kernel → Option ℕ × TcpServer × Kernel → Type 0
  Created s k (none, s', k') = SameDescriptors ep so k k'
  Created s k (some fd, s', k') = (s' ≡ record s { sock_fd = some fd }) × Opened ep so fd k k'

  none-Same : (k : Kernel) → (sc.socket k).0 ≡ none → SameDescriptors ep so k (sc.socket k).1
  none-Same k e g = let o = sc.socket-open k g in (ground (arith, o, e), sc.socket-interest k g)

  create_socket-Created :
      (s : TcpServer) (k : Kernel) → Created s k (tcp_server_create_socket ep so sc al s k)
  unfolding tcp_server_create_socket
  create_socket-Created s k = elim (Option-cases (sc.socket k).0) [
    | inl e ↦ rw (e, tcp_server_create_socket) (none-Same k e)
    | inr (fd, e) ↦
        let k₁ = (sc.socket k).1 in
        let k₂ = (sc.reuse_address fd k₁).1 in
        let op =
          Opened-later ep so fd k k₁ k₂ (given-Opened k fd e) (sc.reuse_address-same fd k₁) in
        elim (Bool-cases (sc.reuse_address fd k₁).0) [
          | inl y ↦ rw (e, tcp_server_create_socket) (rw y (refl, op))
          | inr n ↦ rw (e, tcp_server_create_socket) (rw n (closed-Opened ep so fd k k₂ op))
        ]
  ]

  listen-Same :
      (s : TcpServer) (fd : ℕ) (k : Kernel)
      → SameDescriptors ep so k (tcp_server_listen ep so sc al s fd k).1
  unfolding tcp_server_listen
  listen-Same s fd k =
      let port = s.port % 2 ^ 16 in
      let k₁ = (sc.bind fd port k).1 in
      elim (Bool-cases (sc.bind fd port k).0) [
        | inl y ↦ rw y (
            SameDescriptors-trans k k₁ (sc.listen fd k₁).1 (sc.bind-same fd port k)
              (sc.listen-same fd k₁))
        | inr n ↦ rw n (sc.bind-same fd port k)
      ]

  abbrev Pooled : TcpServer → Bool × TcpServer × Pool → Type 0
  Pooled s (true, s', p) =
      (s'.sock_fd ≡ s.sock_fd) × (0 < s.connections → Partition s.connections s'.table.pool [])
  Pooled s (false, s', p) = Unit {0}

  init_pool-Pooled : (s : TcpServer) (p : Pool) → Pooled s (init_pool ep so sc al s p)
  unfolding init_pool
  init_pool-Pooled s p =
      elim (Bool-cases ((al.alloc (connection_size * s.connections) p).0 == null)) [
        | inl y ↦ rw y tt
        | inr n ↦ rw n (refl, λ h. pool-Partition s.connections _ _ h)
      ]

  pooled-Initialised :
      (s : TcpServer) (k k' : Kernel) (fd : ℕ) (o : Bool × TcpServer × Pool)
      → Opened ep so fd k k'
      → Pooled (record s { sock_fd = some fd }) o
      → Initialised s k (pooled ep so sc al fd k' o)
  pooled-Initialised s k k' fd (true, s', p) op (e, h) = (fd, e, op, h)
  pooled-Initialised s k k' fd (false, s', p) op h = closed-Opened ep so fd k k' op

  listened-Initialised :
      (s : TcpServer) (k k₁ : Kernel) (fd : ℕ) (p : Pool) (o : Bool × Kernel)
      → Opened ep so fd k k₁
      → SameDescriptors ep so k₁ o.1
      → Initialised s k (listened ep so sc al (record s { sock_fd = some fd }) fd p o)
  listened-Initialised s k k₁ fd p (false, k') op same =
      closed-Opened ep so fd k k' (Opened-later ep so fd k k₁ k' op same)
  listened-Initialised s k k₁ fd p (true, k') op same =
      let s' = record s { sock_fd = some fd } in
      pooled-Initialised s k k' fd (init_pool ep so sc al s' p)
        (Opened-later ep so fd k k₁ k' op same) (init_pool-Pooled s' p)

  with_socket-Initialised :
      (s : TcpServer) (k : Kernel) (p : Pool) (o : Option ℕ × TcpServer × Kernel)
      → Created s k o
      → Initialised s k (with_socket ep so sc al p o)
  with_socket-Initialised s k p (none, s', k') same = same
  with_socket-Initialised s k p (some fd, s', k') (e, op) = rw e (
      listened-Initialised s k k' fd p
        (tcp_server_listen ep so sc al (record s { sock_fd = some fd }) fd k') op
        (listen-Same (record s { sock_fd = some fd }) fd k'))

  pub tcp_server_init-Initialised :
      (s : TcpServer) (k : Kernel) (p : Pool) → Initialised s k (tcp_server_init ep so sc al s k p)
  unfolding tcp_server_init
  tcp_server_init-Initialised s k p =
      with_socket-Initialised s k p (tcp_server_create_socket ep so sc al s k)
        (create_socket-Created s k)
