-- ===== src/EventLoop/Pass.antt =====
-- What a pass of `process_events` over one connection leaves consistent (src/net/net_event.c).
use xpipe.Base.{
  ℕ, suc, ◌<◌, ◌≤◌, ◌≡◌, inl, inr, ◌∙◌, arith, Bool, true, false, Bool-cases, List, ◌∷◌, ◌==◌,
  if◌then◌else◌, count,
}
use xpipe.Connection.{
  Events, ev_none_event, any_event, join_events, minus_events, Handler, Connection,
}
use xpipe.NetEvent.{
  Epoll, ctl_add, ctl_mod, ctl_del, add_event, del_event, epoll_add_event, epoll_del_event,
}
use xpipe.NetEvent.Registration.{IsRegistered, Rewatched, Added, add_event-Added, del_event-Deleted}
use xpipe.NetEvent.Carried.{IsCarried}
use xpipe.TcpServer.KeepsEvents.{SameEvents, Leaves}
use xpipe.TcpServer.Accept.{Sockets, Table, store, tcp_server_accept}
use xpipe.TcpServer.Descriptors.{SameDescriptors}
use xpipe.TcpServer.Owned.{Owned, tcp_server_accept-Owned}
use xpipe.EventLoop.{with_table, ClientHandlers, World, accept_on, call}
use xpipe.EventLoop.Walk.{del_event-table, add_event-table}
use xpipe.EventLoop.Consistent.{IsConsistent, update-IsConsistent}
use xpipe.EventLoop.Accepted.{NoneTaken-IsConsistent, OneTaken-IsConsistent}

module _ (ep : Epoll) (so : Sockets ep) (handlers : ClientHandlers ep) where
  open ep use {Kernel, interest}
  open so use {is_open}

  -- what is asked of the handlers of clients: they leave the descriptors and what is watched alone,
  -- which for their connection is what TcpServer.KeepsEvents shows of them
  pub record LeaveDescriptors : Type 0 where
    pub recv-leaves :
        (c : Connection) (k : Kernel)
        → Leaves c (handlers.recv c k).0 × SameDescriptors ep so k (handlers.recv c k).1
    pub send-leaves :
        (c : Connection) (k : Kernel)
        → Leaves c (handlers.send c k).0 × SameDescriptors ep so k (handlers.send c k).1

  -- during the pass over the slot `i`, whose connection is `c` by now; `js` are still to come
  abbrev pub Held : ℕ → ℕ → List ℕ → Connection → World ep so handlers → Type 0
  Held n i js c w =
      (used : List ℕ) × ((j : ℕ) → count j (i ∷ js) ≤ count j used)
      × IsConsistent ep so n w.0 (store i c w.1) used

  pub in_use :
      (i : ℕ) (js used : List ℕ) → ((j : ℕ) → count j (i ∷ js) ≤ count j used) → 0 < count i used
  in_use i js used within = let here = within i in ground (arith, here)

  -- the connection in the slot `i` is registered
  held-IsRegistered :
      (n i : ℕ) (k : Kernel) (c : Connection) (t : Table) (used : List ℕ)
      → 0 < count i used
      → IsConsistent ep so n k (store i c t) used
      → IsRegistered ep c k
  held-IsRegistered n i k c t used u v =
      let slot : (store i c t).slots i ≡ c = ground arith in rw slot at (v.registered i u)

  left-Rewatched :
      (c c' : Connection) (k k' : Kernel)
      → SameEvents c c'
      → SameDescriptors ep so k k'
      → IsRegistered ep c k
      → Rewatched ep c' k k'
  left-Rewatched c c' k k' (ad, fd, events) same r g =
      let s = same g in
      elim (Bool-cases (g == c'.conn_fd)) [
        | inl e ↦
            let at_fd : g ≡ c.conn_fd = ground (arith, e, fd) in
            rw e (s.1 ∙ rw (at_fd, events, ad) r)
        | inr e ↦ rw e (s.1)
      ]

  left-Held :
      (n i : ℕ) (js : List ℕ) (c c' : Connection) (k k' : Kernel) (t : Table)
      → SameEvents c c'
      → SameDescriptors ep so k k'
      → Held n i js c (k, t)
      → Held n i js c' (k', t)
  left-Held n i js c c' k k' t same left (used, within, v) =
      let u = in_use i js used within in
      (
        used,
        within,
        update-IsConsistent ep so n i k k' c c' t used u v same.0 same.1
            (left-Rewatched c c' k k' same left (held-IsRegistered n i k c t used u v))
            (λ g. (left g).0),
      )

  accept_on-Held :
      (n i : ℕ) (js : List ℕ) (c : Connection) (w : World ep so handlers)
      → Held n i js c w
      → let went = accept_on ep so handlers c w (
          tcp_server_accept ep so handlers.nodelay
            (suc (so.interruptions w.0))
            c.conn_fd
            w.0
            w.1) in
        Held n i js went.0 went.1
  accept_on-Held n i js c w (used, within, v) =
      let (r, e, o) =
        tcp_server_accept-Owned ep so n handlers.nodelay (suc (so.interruptions w.0)) c.conn_fd w.0
          w.1 used v.partition (omega arith) in
      rw e (owned r o)
    where
      owned : (r : Bool × Kernel × Table) → Owned ep so n w.0 w.1 used r → Held n i js c (r.1, r.2)
      owned (ok, k', t') (inl (e, o)) =
          (used, within, NoneTaken-IsConsistent ep so n i w.0 k' c w.1 t' used v o)
      owned (ok, k', t') (inr o) = (
        o.1 ∷ used,
        λ j. let w = within j in ground (arith, w),
        OneTaken-IsConsistent ep so n i w.0 k' c w.1 t' used (in_use i js used within) v o,
      )

  del_event-leaves :
      (c : Connection) (e : Events) (w : World ep so handlers)
      → ((del_event (with_table ep) c e w).1.address ≡ c.address)
        × ((del_event (with_table ep) c e w).1.conn_fd ≡ c.conn_fd)
        × ((g : ℕ) → is_open (del_event (with_table ep) c e w).2.0 g ≡ is_open w.0 g)
  unfolding del_event epoll_del_event
  del_event-leaves c e w = (
    ground arith,
    ground arith,
    λ g.
        let rest = minus_events c.events e in
        let op = if any_event rest then ctl_mod else ctl_del in
        let same = so.ctl-open op c.conn_fd c.address rest w.0 g in ground (arith, same),
  )

  add_event-leaves :
      (c : Connection) (e : Events) (h : Handler) (w : World ep so handlers)
      → ((add_event (with_table ep) c e h w).1.address ≡ c.address)
        × ((add_event (with_table ep) c e h w).1.conn_fd ≡ c.conn_fd)
        × ((g : ℕ) → is_open (add_event (with_table ep) c e h w).2.0 g ≡ is_open w.0 g)
  unfolding add_event epoll_add_event
  add_event-leaves c e h w = (
    ground arith,
    ground arith,
    λ g.
        let op = if any_event c.events then ctl_mod else ctl_add in
        let same = so.ctl-open op c.conn_fd c.address (join_events e c.events) w.0 g in
        ground (arith, same),
  )

  -- what adding events leaves to be watched, done or not
  Added-Rewatched :
      (c : Connection) (e : Events) (h : Handler) (w : World ep so handlers)
      (o : Bool × Connection × World ep so handlers)
      → Added (with_table ep) c e h w o
      → IsRegistered ep c w.0
      → Rewatched ep o.1 w.0 o.2.0
  Added-Rewatched c e h w (true, c', w') a r = a.1
  Added-Rewatched c e h w (false, c', w') (same, left) r = λ g.
      let s = left g in
      elim (Bool-cases (g == c.conn_fd)) [
        | inl e ↦ let at_fd : g ≡ c.conn_fd = ground (arith, e) in rw (same, e) (s ∙ rw at_fd r)
        | inr e ↦ rw (same, e) s
      ]

  changed-Held :
      (n i : ℕ) (js : List ℕ) (c c' : Connection) (w w' : World ep so handlers)
      → c'.address ≡ c.address
      → c'.conn_fd ≡ c.conn_fd
      → w'.1 ≡ w.1
      → (IsRegistered ep c w.0 → Rewatched ep c' w.0 w'.0)
      → ((g : ℕ) → is_open w'.0 g ≡ is_open w.0 g)
      → Held n i js c w
      → Held n i js c' w'
  changed-Held n i js c c' w w' ad fd table again still (used, within, v) =
      let u = in_use i js used within in
      (
        used,
        within,
        rw table (
            update-IsConsistent ep so n i w.0 w'.0 c c' w.1 used u v ad fd
              (again (held-IsRegistered n i w.0 c w.1 used u v)) still),
      )

  pub carried :
      LeaveDescriptors
      → (n i : ℕ) (js : List ℕ) → IsCarried (with_table ep) (call ep so handlers) (Held n i js)
  unfolding call
  carried leave n i js = record {
    called = called;
    removed = λ c w.
        let (ad, fd, still) = del_event-leaves c c.dead_events w in
        changed-Held n i js c
          (record ((del_event (with_table ep) c c.dead_events w).1) { dead_events = ev_none_event })
          w (del_event (with_table ep) c c.dead_events w).2 ad fd
          (del_event-table ep so handlers c c.dead_events w)
          (λ r. (del_event-Deleted (with_table ep) c c.dead_events w r).2) still;
    added = λ c w a.
        let (ad, fd, still) = add_event-leaves c c.add_events Handler.tcp_server_send w in
        changed-Held n i js c
          (record ((add_event (with_table ep) c c.add_events Handler.tcp_server_send w).1) {
            add_events = ev_none_event;
          })
          w (add_event (with_table ep) c c.add_events Handler.tcp_server_send w).2 ad fd
          (add_event-table ep so handlers c c.add_events Handler.tcp_server_send w)
          (Added-Rewatched c c.add_events Handler.tcp_server_send w _
            (add_event-Added (with_table ep) c c.add_events Handler.tcp_server_send w a))
          still;
  }
    where
      called :
          (h : Handler) (c : Connection) (w : World ep so handlers)
          → Held n i js c w
          → Held n i js (call ep so handlers h c w).0 (call ep so handlers h c w).1
      called Handler.tcp_server_accept c w b = accept_on-Held n i js c w b
      called Handler.tcp_server_recv c (k, t) b =
          let (same, left) = leave.recv-leaves c k in
          left-Held n i js c (handlers.recv c k).0 k (handlers.recv c k).1 t same.0 left b
      called Handler.tcp_server_send c (k, t) b =
          let (same, left) = leave.send-leaves c k in
          left-Held n i js c (handlers.send c k).0 k (handlers.send c k).1 t same.0 left b
