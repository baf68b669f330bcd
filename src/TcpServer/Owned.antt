-- ===== src/TcpServer/Owned.antt =====
-- A descriptor that is accepted is closed again or belongs to one connection, which is watched
-- (`tcp_server_accept`, src/net/tcp_server.c).
use xpipe.Base.{
  ℕ, ◌<◌, ◌≡◌, ◌⊎◌, inl, inr, refl, arith, Bool, true, false, ◌||◌, List, [], ◌∷◌, Option, none,
  some, ◌==◌, if◌then◌else◌, count, Bool-cases,
}
use xpipe.Connection.{ev_none_event, ev_read_event, tcp_server_recv, Connection}
use xpipe.NetEvent.{Epoll, add_event}
use xpipe.NetEvent.Registration.{Added, add_event-Added}
use xpipe.TcpServer.ConnectionPool.{put, tcp_free_connection}
use xpipe.TcpServer.Slots.{Partition, freed-Partition}
use xpipe.TcpServer.Accept.{
  Sockets, Table, free_slot, put_slot, store, new_connection, take_slot, watched_slot, with_slot,
  without_delay, with_descriptor, tcp_server_accept,
}
use xpipe.TcpServer.Descriptors.{
  SameDescriptors, Opened, closed-Opened, Opened-later, Taken, accept_loop-Taken, add_event-leaves,
}
use xpipe.TcpServer.Taken.{Slot, take_slot-Slot, new_slot}

-- the slots that were handed out are what they were, and so are their links
abbrev pub SameSlots : Table → Table → List ℕ → Type 0
SameSlots t t' used =
    (i : ℕ) → 0 < count i used → (t'.slots i ≡ t.slots i) × (t'.pool.next i ≡ t.pool.next i)

handed_out-SameSlots :
    (i : ℕ) (c : Connection) (t t' : Table) (used : List ℕ)
    → count i used ≡ 0
    → t'.slots ≡ put_slot i c t.slots
    → t'.pool.next ≡ put i none t.pool.next
    → SameSlots t t' used
handed_out-SameSlots i c t t' used z put_c put_next j u =
    (rw put_c (ground (arith, z, u)), rw put_next (ground (arith, z, u)))

store-SameSlots :
    (i : ℕ) (c : Connection) (t t' : Table) (used : List ℕ)
    → count i used ≡ 0
    → SameSlots t t' used
    → SameSlots t (store i c t') used
store-SameSlots i c t t' used z same j u = let s = same j u in (ground (arith, s.0, z), s.1)

free_slot-SameSlots :
    (i : ℕ) (t t' : Table) (used : List ℕ)
    → count i used ≡ 0
    → SameSlots t t' used
    → SameSlots t (free_slot i t') used
unfolding tcp_free_connection
free_slot-SameSlots i t t' used z same j u = let s = same j u in (s.0, ground (arith, s.1, z))

module _ (ep : Epoll) (so : Sockets ep) where
  open ep use {Kernel, interest}
  open so use {is_open}

  -- nothing came of the call
  abbrev pub NoneTaken : ℕ → Kernel → Table → List ℕ → Kernel → Table → Type 0
  NoneTaken n k t used k' t' =
      Partition n t'.pool used × SameSlots t t' used × SameDescriptors ep so k k'

  -- the descriptor `fd` belongs to the slot `i`, which was in the pool
  abbrev pub OneTaken : ℕ → Kernel → Table → List ℕ → Kernel → Table → Type 0
  OneTaken n k t used k' t' =
      (fd : ℕ) × (i : ℕ) × Partition n t'.pool (i ∷ used)
      × SameSlots t t' used
      × (is_open k fd ≡ false)
      × ((g : ℕ) → is_open k' g ≡ (g == fd || is_open k g))
      × ((g : ℕ) → interest k' g ≡ (if g == fd then some (i, ev_read_event) else interest k g))
      × ((t'.slots i).address ≡ i)
      × ((t'.slots i).conn_fd ≡ fd)
      × ((t'.slots i).events ≡ ev_read_event)
      × ((t'.slots i).read_event_handler ≡ some tcp_server_recv)
      × ((t'.slots i).dead_events ≡ ev_none_event)

  abbrev pub Owned : ℕ → Kernel → Table → List ℕ → Bool × Kernel × Table → Type 0
  Owned n k t used (ok, k', t') =
      ((ok ≡ false) × NoneTaken n k t used k' t') ⊎ OneTaken n k t used k' t'

  watched_slot-Owned :
      (n fd i : ℕ) (k k₂ : Kernel) (t t' : Table) (used : List ℕ)
      → Partition n t'.pool (i ∷ used)
      → t'.slots ≡ put_slot i (new_connection i fd) t.slots
      → t'.pool.next ≡ put i none t.pool.next
      → Opened ep so fd k k₂
      → (o : Bool × Connection × Kernel)
      → Added ep (new_connection i fd) ev_read_event tcp_server_recv k₂ o
      → o.1.conn_fd ≡ fd
      → o.1.address ≡ i
      → o.1.dead_events ≡ ev_none_event
      → ((g : ℕ) → is_open o.2 g ≡ is_open k₂ g)
      → Owned n k t used (watched_slot ep so i t' o)
  unfolding watched_slot
  watched_slot-Owned n fd i k k₂ t t' used p put_c put_next op (false, c, k') (same, left) f ad de
        still =
      let z = new_slot ep so n i t'.pool used p in
      inl (
        refl,
        (
          freed-Partition n t'.pool [] i used p,
          free_slot-SameSlots i t (store i c t') used z (
              store-SameSlots i c t t' used z
                (handed_out-SameSlots i (new_connection i fd) t t' used z put_c put_next)),
          rw f (
              closed-Opened ep so fd k k'
                (Opened-later ep so fd k k₂ k' op (λ g. (still g, left g)))),
        ),
      )
  watched_slot-Owned n fd i k k₂ t t' used p put_c put_next (new, op, w) (true, c, k')
        (r, again, e, rh, wh) f ad de still =
      let z = new_slot ep so n i t'.pool used p in
      inr (
        fd,
        i,
        p,
        store-SameSlots i c t t' used z
            (handed_out-SameSlots i (new_connection i fd) t t' used z put_c put_next),
        new,
        λ g.
            let a = so.address-same k' g in
            let b = still g in let c = op g in ground (arith, a, b, c),
        λ g.
            let a = so.address-same k' g in
            let b = again g in let now = w g in ground (arith, a, b, now, f, ad, e),
        ground (arith, ad),
        ground (arith, f),
        ground (arith, e),
        ground (arith, rh),
        ground (arith, de),
      )

  with_slot-Owned :
      (n fd : ℕ) (k k₂ : Kernel) (t : Table) (used : List ℕ)
      → Partition n t.pool used
      → Opened ep so fd k k₂
      → (o : Option ℕ × Table) → Slot ep so n fd t used o
      → Owned n k t used (with_slot ep so fd k₂ o)
  unfolding with_slot
  with_slot-Owned n fd k k₂ t used p op (none, t') same =
      inl (refl, rw same (p, λ i u. (refl, refl), closed-Opened ep so fd k k₂ op))
  with_slot-Owned n fd k k₂ t used p op (some i, t') (q, put_c, put_next) =
      let c = new_connection i fd in
      let slot : t'.slots i ≡ c = rw put_c (ground arith) in
      let (ad, f, l, de, still) = add_event-leaves ep so c ev_read_event tcp_server_recv k₂ in
      rw slot (
        watched_slot-Owned n fd i k k₂ t t' used q put_c put_next op
          (add_event ep c ev_read_event tcp_server_recv k₂)
          (add_event-Added ep c ev_read_event tcp_server_recv k₂ refl) f ad de still)

  without_delay-Same :
      (nodelay fd : ℕ) (k : Kernel) → SameDescriptors ep so k (without_delay ep so nodelay fd k)
  unfolding without_delay
  without_delay-Same nodelay fd k g =
      let s = so.nodelay-same fd k g in (ground (arith, s.0), ground (arith, s.1))

  with_descriptor-Owned :
      (n nodelay : ℕ) (a : Option ℕ) (k k₁ : Kernel) (t : Table) (used : List ℕ)
      → Partition n t.pool used
      → Taken ep so k a k₁
      → Owned n k t used (with_descriptor ep so nodelay a k₁ t)
  unfolding with_descriptor
  with_descriptor-Owned n nodelay none k k₁ t used p same =
      inl (refl, (p, λ i u. (refl, refl), same))
  with_descriptor-Owned n nodelay (some fd) k k₁ t used p op =
      let k₂ = (so.set_nonblock fd k₁).1 in
      let k₃ = without_delay ep so nodelay fd k₂ in
      let k₄ = (take_slot ep so fd k₃ t).1 in
      let op₂ = Opened-later ep so fd k k₁ k₂ op (so.nonblock-same fd k₁) in
      let op₃ = Opened-later ep so fd k k₂ k₃ op₂ (without_delay-Same nodelay fd k₂) in
      let (slot, same) = take_slot-Slot ep so n fd k₃ t used p in
      elim (Bool-cases ((so.set_nonblock fd k₁).0)) [
        | inl e ↦ rw e (
            with_slot-Owned n fd k k₄ t used p (Opened-later ep so fd k k₃ k₄ op₃ same)
              (take_slot ep so fd k₃ t).0 slot)
        | inr e ↦ rw e (inl (refl, (p, λ i u. (refl, refl), closed-Opened ep so fd k k₂ op₂)))
      ]

  -- With more rounds than there are signals to come, `tcp_server_accept` returns, whatever fails on
  -- its way. Either nothing came of it: it returns TCP_SRV_ERROR, the slots that were handed out
  -- are as before, each slot is still in the pool or handed out, and just the descriptors that were
  -- open and watched still are, so that a descriptor it accepted is closed again. Or one descriptor
  -- that was not open is open, and a slot that was in the pool is handed out for it, with
  -- `tcp_server_recv` for its read events, which the system watches; all else is as before.
  pub tcp_server_accept-Owned :
      (n nodelay f s : ℕ) (k : Kernel) (t : Table) (used : List ℕ)
      → Partition n t.pool used
      → so.interruptions k < f
      → (r : Bool × Kernel × Table) × (tcp_server_accept ep so nodelay f s k t ≡ some r)
        × Owned n k t used r
  unfolding tcp_server_accept
  tcp_server_accept-Owned n nodelay f s k t used p h =
      let (a, k₁, e, taken) = accept_loop-Taken ep so f s k h in
      rw (e, tcp_server_accept)
        (
          with_descriptor ep so nodelay a k₁ t,
          refl,
          with_descriptor-Owned n nodelay a k k₁ t used p taken,
        )
