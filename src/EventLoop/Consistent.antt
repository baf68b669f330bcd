-- ===== src/EventLoop/Consistent.antt =====
-- When the slots, the connections in them, and what the system keeps of their descriptors fit
-- (src/net/net_event.c, src/net/tcp_server.c), and that this outlasts a change of one connection.
use xpipe.Base.{
  ℕ, ◌<◌, ◌≡◌, inl, inr, refl, ◌∙◌, sym, arith, true, false, Bool-cases, List, ◌∷◌, ◌++◌, some,
  ◌==◌, count,
}
use xpipe.Connection.{Events, Connection}
use xpipe.NetEvent.{Epoll}
use xpipe.NetEvent.Registration.{IsRegistered, Rewatched}
use xpipe.TcpServer.ConnectionPool.{tcp_free_connection}
use xpipe.TcpServer.Slots.{Partition, freed-Partition, count-append}
use xpipe.TcpServer.Accept.{Sockets, Table, store, free_slot}

module _ (ep : Epoll) (so : Sockets ep) where
  open ep use {Kernel, interest}
  open so use {is_open}

  -- Each slot is once in the pool or handed out. A connection that is handed out has a descriptor
  -- of its own, which is open and watched for just the events that the connection says, with the
  -- connection as the pointer, and nothing else is watched.
  pub record IsConsistent (n : ℕ) (k : Kernel) (t : Table) (used : List ℕ) : Type 0 where
    pub partition : Partition n t.pool used
    pub registered : (i : ℕ) → 0 < count i used → IsRegistered ep (t.slots i) k
    pub opened : (i : ℕ) → 0 < count i used → is_open k (t.slots i).conn_fd ≡ true
    pub apart :
        (i j : ℕ)
        → 0 < count i used
        → 0 < count j used
        → (t.slots i).conn_fd ≡ (t.slots j).conn_fd
        → i ≡ j
    pub placed : (i : ℕ) → 0 < count i used → (t.slots i).address ≡ i
    pub owned :
        (g p : ℕ) (e : Events)
        → interest k g ≡ some (p, e)
        → (0 < count p used) × ((t.slots p).conn_fd ≡ g)

  -- the descriptor of another connection is another one
  other_fd :
      (n i j : ℕ) (k : Kernel) (c : Connection) (t : Table) (used : List ℕ)
      → IsConsistent n k (store i c t) used
      → 0 < count i used
      → 0 < count j used
      → (j == i) ≡ false
      → ((t.slots j).conn_fd == c.conn_fd) ≡ false
  other_fd n i j k c t used v u w ne = elim (Bool-cases ((t.slots j).conn_fd == c.conn_fd)) [
    | inr e ↦ e
    | inl e ↦
        let same : i ≡ j = v.apart i j u w (ground (arith, e, ne)) in
        absurd (ground (arith, ne, same))
  ]

  same_fd :
      (i : ℕ) (c c' : Connection) (t : Table) (a : ℕ)
      → c'.conn_fd ≡ c.conn_fd
      → ((store i c' t).slots a).conn_fd ≡ ((store i c t).slots a).conn_fd
  same_fd i c c' t a fd = elim (Bool-cases (a == i)) [ inl e ↦ rw e fd | inr e ↦ rw e refl ]

  -- the connection in a slot may change its events, if the system's watching follows
  pub update-IsConsistent :
      (n i : ℕ) (k k' : Kernel) (c c' : Connection) (t : Table) (used : List ℕ)
      → 0 < count i used
      → IsConsistent n k (store i c t) used
      → c'.address ≡ c.address
      → c'.conn_fd ≡ c.conn_fd
      → Rewatched ep c' k k'
      → ((g : ℕ) → is_open k' g ≡ is_open k g)
      → IsConsistent n k' (store i c' t) used
  update-IsConsistent n i k k' c c' t used u v ad fd again still = record {
    partition = v.partition;
    registered = λ j w. elim (Bool-cases (j == i)) [
      | inl e ↦ let now = again c'.conn_fd in rw e (ground (arith, now))
      | inr e ↦
          let far = other_fd n i j k c t used v u w e in
          let now = again (t.slots j).conn_fd in
          let before : IsRegistered ep (t.slots j) k = rw e at (v.registered j w) in
          rw e (ground (arith, now, far, before, fd))
    ];
    opened = λ j w. elim (Bool-cases (j == i)) [
      | inl e ↦
          let s = still c'.conn_fd in
          let before : is_open k c.conn_fd ≡ true = rw e at (v.opened j w) in
          rw e (s ∙ rw fd before)
      | inr e ↦
          let s = still (t.slots j).conn_fd in
          let before : is_open k (t.slots j).conn_fd ≡ true = rw e at (v.opened j w) in
          rw e (s ∙ before)
    ];
    apart = λ a b x y e. v.apart a b x y (sym (same_fd i c c' t a fd) ∙ e ∙ same_fd i c c' t b fd);
    placed = λ j w. elim (Bool-cases (j == i)) [
      | inl e ↦ let before : c.address ≡ j = rw e at (v.placed j w) in rw e (ad ∙ before)
      | inr e ↦ let before : (t.slots j).address ≡ j = rw e at (v.placed j w) in rw e before
    ];
    owned = λ g p e h. elim (Bool-cases (g == c'.conn_fd)) [
      | inl q ↦
          let now = again g in
          let its : (store i c t).slots i ≡ c = ground arith in
          let place : c.address ≡ i = rw its at (v.placed i u) in
          let it : p ≡ i = ground (arith, h, now, q, ad, place) in rw it (u, ground (arith, q))
      | inr q ↦
          let now = again g in
          let (there, its) = v.owned g p e (ground (arith, h, now, q)) in
          (there, same_fd i c c' t p fd ∙ its)
    ];
  }

  -- closing a connection and giving its slot back
  pub close-IsConsistent :
      (n i : ℕ) (k : Kernel) (c : Connection) (t : Table) (us vs : List ℕ)
      → IsConsistent n k (store i c t) (us ++ i ∷ vs)
      → IsConsistent n (so.close_fd c.conn_fd k) (free_slot i (store i c t)) (us ++ vs)
  unfolding tcp_free_connection
  close-IsConsistent n i k c t us vs v = record {
    partition = freed-Partition n t.pool us i vs v.partition;
    registered = λ j w.
        let (out, there, far) = other j w in
        let gone = so.close-interest c.conn_fd k (t.slots j).conn_fd in
        let before : IsRegistered ep (t.slots j) k = rw out at (v.registered j there) in
        rw out (ground (arith, gone, far, before));
    opened = λ j w.
        let (out, there, far) = other j w in
        let gone = so.close-open c.conn_fd k (t.slots j).conn_fd in
        let before : is_open k (t.slots j).conn_fd ≡ true = rw out at (v.opened j there) in
        rw out (ground (arith, gone, far, before));
    apart = λ a b x y e. v.apart a b ((other a x).1) ((other b y).1) e;
    placed = λ j w.
        let (out, there, far) = other j w in
        let before : (t.slots j).address ≡ j = rw out at (v.placed j there) in rw out before;
    owned = λ g p e h.
        let gone = so.close-interest c.conn_fd k g in
        let (there, its) = v.owned g p e (ground (arith, h, gone)) in
        let apart : (p == i) ≡ false = ground (arith, its, h, gone) in
        (ground (arith, there, apart, count-append p us vs, count-append p us (i ∷ vs)), its);
  }
    where
      here : 0 < count i (us ++ i ∷ vs)
      here = ground (arith, count-append i us (i ∷ vs))

      other :
          (j : ℕ)
          → 0 < count j (us ++ vs)
          → ((j == i) ≡ false)
            × (0 < count j (us ++ i ∷ vs))
            × (((t.slots j).conn_fd == c.conn_fd) ≡ false)
      other j w =
          let once = v.partition.2 i in
          let there : 0 < count j (us ++ i ∷ vs) =
            ground (arith, w, count-append j us (i ∷ vs), count-append j us vs) in
          let out : (j == i) ≡ false =
            ground (arith, w, once, count-append i us (i ∷ vs), count-append i us vs) in
          (out, there, other_fd n i j k c t (us ++ i ∷ vs) v here there out)
