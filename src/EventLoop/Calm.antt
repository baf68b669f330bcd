-- ===== src/EventLoop/Calm.antt =====
-- A pass over the polled connections whose handlers are there calls no NULL
-- (src/net/net_event.c).
use xpipe.Base.{
  ℕ, suc, ◌<◌, ◌≤◌, ◌≡◌, inl, inr, refl, ap, subst, arith, Bool, false, Bool-cases, List, ◌∷◌,
  Option, none, some, ◌==◌, count,
}
use xpipe.Connection.{Handler, tcp_server_send, Connection}
use xpipe.NetEvent.{Epoll}
use xpipe.NetEvent.Carried.{IsCarried}
use xpipe.TcpServer.Slots.{Partition}
use xpipe.TcpServer.Accept.{Sockets, Table, tcp_server_accept}
use xpipe.TcpServer.Owned.{Owned, tcp_server_accept-Owned}
use xpipe.EventLoop.{with_table, ClientHandlers, World, accept_on, call}
use xpipe.EventLoop.Walk.{del_event-table, add_event-table}
use xpipe.EventLoop.Pass.{LeaveDescriptors}
use xpipe.EventLoop.Handled.{Handled, Midway, Pending, Leaves-Midway, removed-Midway, added-Midway}

module _ (ep : Epoll) (so : Sockets ep) (handlers : ClientHandlers ep)
    (leave : LeaveDescriptors ep so handlers) where
  -- the slots `js` and others are handed out, all with their handlers, and `js` can be passed over
  abbrev pub Ready : ℕ → List ℕ → World ep so handlers → Type 0
  Ready n js w =
      (used : List ℕ) × Partition n w.1.pool used
      × ((j : ℕ) → count j js ≤ count j used)
      × ((j : ℕ) → 0 < count j used → Handled (w.1.slots j))
      × ((j : ℕ) → 0 < count j js → Pending (w.1.slots j))

  -- during the pass over the slot `i`, whose connection is `c` by now
  abbrev pub Calm : ℕ → ℕ → List ℕ → Connection → World ep so handlers → Type 0
  Calm n i js c w =
      (used : List ℕ) × Partition n w.1.pool used
      × ((j : ℕ) → count j (i ∷ js) ≤ count j used)
      × ((j : ℕ) → 0 < count j used → (j == i) ≡ false → Handled (w.1.slots j))
      × ((j : ℕ) → 0 < count j js → Pending (w.1.slots j))
      × Midway c

  accept_on-same :
      (c : Connection) (w : World ep so handlers) (o : Option (Bool × ep.Kernel × Table))
      → (accept_on ep so handlers c w o).0 ≡ c
  accept_on-same c w none = refl
  accept_on-same c w (some (ok, k, t)) = refl

  pub call-active :
      (h : Handler) (c : Connection) (w : World ep so handlers)
      → (call ep so handlers h c w).0.active_events ≡ c.active_events
  unfolding call
  call-active Handler.tcp_server_accept c w =
      ap (λ (x : Connection). x.active_events) (accept_on-same c w _)
  call-active Handler.tcp_server_recv c (k, t) = (leave.recv-leaves c k).0.1.0
  call-active Handler.tcp_server_send c (k, t) = (leave.send-leaves c k).0.1.0

  accept_on-Calm :
      (n i : ℕ) (js : List ℕ) (c : Connection) (w : World ep so handlers)
      → Calm n i js c w
      → let went = accept_on ep so handlers c w (
          tcp_server_accept ep so handlers.nodelay
            (suc (so.interruptions w.0))
            c.conn_fd
            w.0
            w.1) in
        Calm n i js went.0 went.1
  accept_on-Calm n i js c w (used, p, within, others, pending, m) =
      let (r, e, o) =
        tcp_server_accept-Owned ep so n handlers.nodelay (suc (so.interruptions w.0)) c.conn_fd w.0
          w.1 used p (omega arith) in
      rw e (owned r o)
    where
      owned :
          (r : Bool × ep.Kernel × Table) → Owned ep so n w.0 w.1 used r → Calm n i js c (r.1, r.2)
      owned (ok, k', t') (inl (e, (q, same, left))) = (
        used,
        q,
        within,
        λ j u a. rw (same j u).0 (others j u a),
        λ j u. let w = within j in rw (same j (ground (arith, w, u))).0 (pending j u),
        m,
      )
      owned (ok, k', t') (inr (fd, x, q, same, new, op, watching, ad, its_fd, ev, rh, de)) = (
        x ∷ used,
        q,
        λ j. let w = within j in ground (arith, w),
        λ j u a. elim (Bool-cases (x == j)) [
          | inl e ↦
              let it : x ≡ j = ground (arith, e) in
              subst (λ g. Handled (t'.slots g)) it
                (λ e. ground (arith, rh, e), λ e. ground (arith, ev, e), ground (arith, de))
          | inr e ↦
              let old : 0 < count j used = ground (arith, u, e) in
              rw (same j old).0 (others j old a)
        ],
        λ j u. let w = within j in rw (same j (ground (arith, w, u))).0 (pending j u),
        m,
      )

  pub carried :
      (n i : ℕ) (js : List ℕ) → IsCarried (with_table ep) (call ep so handlers) (Calm n i js)
  unfolding call
  carried n i js = record {
    called = called;
    removed = λ c w b.
        let (used, p, within, others, pending, m) = b in
        rw (del_event-table ep so handlers c c.dead_events w)
          (used, p, within, others, pending, removed-Midway (with_table ep) c w m);
    added = λ c w a b.
        let (used, p, within, others, pending, m) = b in
        rw (add_event-table ep so handlers c c.add_events tcp_server_send w) (
          used,
          p,
          within,
          others,
          pending,
          added-Midway (with_table ep) (call ep so handlers) c w a m,
        );
  }
    where
      called :
          (h : Handler) (c : Connection) (w : World ep so handlers)
          → Calm n i js c w
          → Calm n i js (call ep so handlers h c w).0 (call ep so handlers h c w).1
      called Handler.tcp_server_accept c w b = accept_on-Calm n i js c w b
      called Handler.tcp_server_recv c (k, t) (used, p, within, others, pending, m) = (
        used,
        p,
        within,
        others,
        pending,
        Leaves-Midway c (handlers.recv c k).0 (leave.recv-leaves c k).0 m,
      )
      called Handler.tcp_server_send c (k, t) (used, p, within, others, pending, m) = (
        used,
        p,
        within,
        others,
        pending,
        Leaves-Midway c (handlers.send c k).0 (leave.send-leaves c k).0 m,
      )
