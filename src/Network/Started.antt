-- ===== src/Network/Started.antt =====
-- What `init_network_mod` (src/net/network.c) has set up when it succeeds.
use xpipe.Base.{
  ℕ, ◌/◌, ◌<◌, ◌≤◌, ◌≡◌, refl, ◌∙◌, ap, subst, arith, Bool, true, false, [], ◌∷◌, Option, none,
  some, null, ◌==◌, Bool-cases, inl, inr, count,
}
use xpipe.Allocator.{Allocator}
use xpipe.Connection.{ev_none_event, ev_read_event, Handler, Connection}
use xpipe.NetEvent.{Epoll, add_event}
use xpipe.NetEvent.Registration.{IsRegistered, Added, add_event-Added}
use xpipe.Conf.Settings.{NetConf}
use xpipe.TcpServer.Slots.{Partition}
use xpipe.TcpServer.Accept.{Sockets, Table, store, new_connection, take_slot}
use xpipe.TcpServer.Descriptors.{Opened, add_event-leaves}
use xpipe.TcpServer.Taken.{Slot, take_slot-Slot}
use xpipe.TcpServer.Setup.{ServerCalls, TcpServer, tcp_server_init}
use xpipe.TcpServer.Listening.{Initialised, tcp_server_init-Initialised}
use xpipe.EventLoop.Consistent.{IsConsistent}
use xpipe.Network.Fresh.{Fresh, epoll_build-Fresh}
use xpipe.Network.{
  driver_size, server_size, configured, epoll_build, Outcome, listening, with_connection, with_sock,
  with_server, with_driver, init_network_mod,
}

module _ (ep : Epoll) (so : Sockets ep) (sc : ServerCalls ep so) (al : Allocator) where
  open ep use {Kernel, interest}
  open so use {is_open}
  open al use {Pool}

  -- The server listens: one connection is handed out, for its socket, and `tcp_server_accept`
  -- handles the read events of that.
  abbrev pub Listens : ℕ → TcpServer → Kernel → Type 0
  Listens n s k =
      (i : ℕ) × IsConsistent ep so n k s.table (i ∷ [])
      × (some (s.table.slots i).conn_fd ≡ s.sock_fd)
      × ((s.table.slots i).is_listen ≡ true)
      × ((s.table.slots i).events ≡ ev_read_event)
      × ((s.table.slots i).read_event_handler ≡ some Handler.tcp_server_accept)
      × ((s.table.slots i).dead_events ≡ ev_none_event)

  -- what is known behind `init_network_mod`
  abbrev pub Started : NetConf → Outcome ep so sc al → Type 0
  Started cf (true, s, k, p) = (2 ≤ cf.conns) × Listens cf.conns s k
  Started cf (false, s, k, p) = Unit {0}

  -- one connection that is registered, with nothing else, and open is consistent
  one-IsConsistent :
      (n i : ℕ) (k : Kernel) (c : Connection) (t : Table)
      → Partition n t.pool (i ∷ [])
      → c.address ≡ i
      → IsRegistered ep c k
      → ((g : ℕ) → (g == c.conn_fd) ≡ false → interest k g ≡ none)
      → is_open k c.conn_fd ≡ true
      → IsConsistent ep so n k (store i c t) (i ∷ [])
  one-IsConsistent n i k c t p ad r only o = record {
    partition = p;
    registered = λ j u. rw (it j u) r;
    opened = λ j u. rw (it j u) o;
    apart = λ a b u v e. ground (arith, u, v);
    placed = λ j u. let same : j ≡ i = ground (arith, u) in rw (it j u) (ground (arith, ad, same));
    owned = λ g a e h. elim (Bool-cases (g == c.conn_fd)) [
      | inl q ↦
          let its : g ≡ c.conn_fd = ground (arith, q) in
          let now : interest k c.conn_fd ≡ some (a, e) = rw its at h in
          let place : i ≡ a = ground (arith, now, r, ad) in
          let used : 0 < count a (i ∷ []) = ground (arith, place) in
          (used, rw (it a used) (ground (arith, its)))
      | inr q ↦ let none_there = only g q in absurd (ground (arith, h, none_there))
    ];
  }
    where
      it : (j : ℕ) → 0 < count j (i ∷ []) → (j == i) ≡ true
      it j u = ground (arith, u)

  listening-Started :
      (cf : NetConf) (fd i : ℕ) (s : TcpServer) (k : Kernel) (p : Pool) (c : Connection)
      (o : Bool × Connection × Kernel)
      → 2 ≤ cf.conns
      → Partition cf.conns s.table.pool (i ∷ [])
      → s.sock_fd ≡ some fd
      → Added ep c ev_read_event Handler.tcp_server_accept k o
      → c.events ≡ ev_none_event
      → c.is_listen ≡ true
      → Fresh ep so sc al k
      → (o.1.address ≡ i)
        × (o.1.conn_fd ≡ fd)
        × (o.1.is_listen ≡ c.is_listen)
        × (o.1.dead_events ≡ ev_none_event)
        × (is_open o.2 fd ≡ true)
      → Started cf (listening ep so sc al i s p o)
  listening-Started cf fd i s k p c (false, c', k') two q f a e l fresh w = tt
  listening-Started cf fd i s k p c (true, c', k') two q f (r, again, ev, rh, wh) e l fresh
        (ad, g, l', de, op) =
      (
        two,
        (
          i,
          one-IsConsistent cf.conns i k' c' s.table q ad r
              (λ x far.
                let now = again x in let before = fresh x in ground (arith, now, before, far))
              (rw g op),
          ground (arith, g, f),
          ground (arith, l, l'),
          ground (arith, ev, e),
          ground (arith, rh),
          ground (arith, de),
        ),
      )

  with_connection-Started :
      (cf : NetConf) (fd : ℕ) (s : TcpServer) (k : Kernel) (p : Pool)
      (o : (Option ℕ × Table) × Kernel)
      → 2 ≤ cf.conns
      → s.sock_fd ≡ some fd
      → Slot ep so cf.conns fd s.table [] o.0
      → is_open o.1 fd ≡ true
      → Fresh ep so sc al o.1
      → Started cf (with_connection ep so sc al s p o)
  with_connection-Started cf fd s k p ((none, t), k') two f slot op fresh = tt
  with_connection-Started cf fd s k p ((some i, t), k') two f (q, put_c, put_next) op fresh =
      let c = record (t.slots i) { is_listen = true } in
      let slot : t.slots i ≡ new_connection i fd = rw put_c (ground arith) in
      let (ad, g, l, de, still) =
        add_event-leaves ep so c ev_read_event Handler.tcp_server_accept k' in
      let same_fd : (t.slots i).conn_fd ≡ fd = ap (λ (x : Connection). x.conn_fd) slot in
      let same_place : (t.slots i).address ≡ i = ap (λ (x : Connection). x.address) slot in
      let same_dead : (t.slots i).dead_events ≡ ev_none_event =
        ap (λ (x : Connection). x.dead_events) slot in
      let same_events : (t.slots i).events ≡ ev_none_event =
        ap (λ (x : Connection). x.events) slot in
      listening-Started cf fd i (record s { table = store i c t }) k' p c
        (add_event ep c ev_read_event Handler.tcp_server_accept k') two q f
        (add_event-Added ep c ev_read_event Handler.tcp_server_accept k' refl) same_events refl
        fresh (ad ∙ same_place, g ∙ same_fd, l, de ∙ same_dead, still fd ∙ op)

  with_sock-Started :
      (cf : NetConf) (h : Option ℕ) (fd : ℕ) (s : TcpServer) (k k' : Kernel) (p : Pool)
      → 2 ≤ cf.conns
      → h ≡ some fd
      → s.sock_fd ≡ some fd
      → Opened ep so fd k k'
      → Partition cf.conns s.table.pool []
      → Fresh ep so sc al k
      → Started cf (with_sock ep so sc al h s k' p)
  with_sock-Started cf none fd s k k' p two e f op q fresh = tt
  with_sock-Started cf (some x) fd s k k' p two e f op q fresh =
      let it : x ≡ fd = cc in
      let (slot, same) = take_slot-Slot ep so cf.conns fd k' s.table [] q in
      let (new, o, w) = op in
      let before = o fd in
      let still = same fd in
      rw it (
        with_connection-Started cf fd s k' p (take_slot ep so fd k' s.table) two f slot
          (ground (arith, before, still))
          (λ g. let a = same g in let b = w g in let c = fresh g in ground (arith, a, b, c)))

  with_server-Started :
      (cf : NetConf) (s : TcpServer) (k : Kernel) (r : Outcome ep so sc al)
      → 2 ≤ cf.conns
      → s.connections ≡ cf.conns
      → Fresh ep so sc al k
      → Initialised ep so sc al s k r
      → Started cf (with_server ep so sc al r)
  with_server-Started cf s k (false, s', k', p) two e fresh h = tt
  with_server-Started cf s k (true, s', k', p) two e fresh (fd, f, op, q) =
      with_sock-Started cf s'.sock_fd fd s' k k' p two f f op
        (subst (λ n. Partition n s'.table.pool []) e (q (omega arith))) fresh

  with_driver-Started :
      (cf : NetConf) (t : Table) (o : Option ℕ × Kernel × Pool)
      → ((e_fd : ℕ) → o.0 ≡ some e_fd → (0 < cf.conns / 2) × Fresh ep so sc al o.1)
      → Started cf (with_driver ep so sc al cf t o)
  with_driver-Started cf t (none, k, p) h = tt
  with_driver-Started cf t (some e_fd, k, p) h =
      let (some_conns, fresh) = h e_fd refl in
      let p' = (al.alloc server_size p).1 in
      elim (Bool-cases ((al.alloc server_size p).0 == null)) [
        | inl y ↦ rw y tt
        | inr n ↦ rw n (
            with_server-Started cf (configured cf t) k
              (tcp_server_init ep so sc al (configured cf t) k p') (omega arith) refl fresh
              (tcp_server_init-Initialised ep so sc al (configured cf t) k p'))
      ]

  -- Whatever the system answers and the memory held, if `init_network_mod` returns MOD_OK, then at
  -- least two connections are configured, and of these one is handed out and the others are in the
  -- pool. That one has the listening socket, whose descriptor is open and watched for read events
  -- and nothing else, which `tcp_server_accept` handles.
  pub init_network_mod-Started :
      (cf : NetConf) (t : Table) (k : Kernel) (p : Pool)
      → Started cf (init_network_mod ep so sc al cf t k p)
  unfolding init_network_mod
  init_network_mod-Started cf t k p =
      let p' = (al.alloc driver_size p).1 in
      elim (Bool-cases ((al.alloc driver_size p).0 == null)) [
        | inl y ↦ rw y tt
        | inr n ↦ rw n (
            with_driver-Started cf t (epoll_build ep so sc al (cf.conns / 2) k p')
              (epoll_build-Fresh ep so sc al (cf.conns / 2) k p'))
      ]
