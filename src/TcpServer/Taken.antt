-- ===== src/TcpServer/Taken.antt =====
-- The slot that `tcp_get_connection` gives (src/net/tcp_server.c).
use xpipe.Base.{
  ℕ, ◌≡◌, refl, sym, ap, subst, arith, Bool, true, false, List, ◌∷◌, Option, none, some, count,
}
use xpipe.NetEvent.{Epoll}
use xpipe.TcpServer.ConnectionPool.{put, ConnectionPool, tcp_get_connection, hand_out}
use xpipe.TcpServer.Slots.{Partition, got-Partition}
use xpipe.TcpServer.Accept.{
  Sockets, Table, put_slot, new_connection, cleared, get_slot, take_slot, asked,
}
use xpipe.TcpServer.Descriptors.{SameDescriptors}

module _ (ep : Epoll) (so : Sockets ep) where
  open ep use {Kernel, interest}
  open so use {is_open}

  -- what `tcp_get_connection` may give, of `n` slots
  abbrev pub Slot : ℕ → ℕ → Table → List ℕ → Option ℕ × Table → Type 0
  Slot n fd t used (none, t') = t' ≡ t
  Slot n fd t used (some i, t') =
      Partition n t'.pool (i ∷ used)
      × (t'.slots ≡ put_slot i (new_connection i fd) t.slots)
      × (t'.pool.next ≡ put i none t.pool.next)

  get_slot-Slot :
      (n : ℕ) (got : Bool) (fd : ℕ) (t : Table) (used : List ℕ)
      → Partition n t.pool used
      → Slot n fd t used (get_slot got fd t)
  unfolding get_slot tcp_get_connection hand_out
  get_slot-Slot n false fd t used p = refl
  get_slot-Slot n true fd t used p = handed t.pool.connection_pool refl
    where
      handed :
          (h : Option ℕ)
          → h ≡ t.pool.connection_pool
          → Slot n fd t used (cleared fd (hand_out h fd t.pool) t)
      handed none e = refl
      handed (some i) e = (
        subst (λ h. Partition n (hand_out h fd t.pool).1 (i ∷ used)) (sym e)
            (got-Partition n t.pool used i fd p (ap (λ h. (hand_out h fd t.pool).0) (sym e))),
        refl,
        refl,
      )

  pub take_slot-Slot :
      (n fd : ℕ) (k : Kernel) (t : Table) (used : List ℕ)
      → Partition n t.pool used
      → Slot n fd t used (take_slot ep so fd k t).0
        × SameDescriptors ep so k (take_slot ep so fd k t).1
  unfolding take_slot
  take_slot-Slot n fd k t used p = asked-Slot t.pool.connection_pool
    where
      asked-Slot :
          (h : Option ℕ)
          → Slot n fd t used (asked ep so h fd k t).0
            × SameDescriptors ep so k (asked ep so h fd k t).1
      asked-Slot none = (get_slot-Slot n false fd t used p, λ g. (refl, refl))
      asked-Slot (some i) = (get_slot-Slot n (so.pool_created k).0 fd t used p, so.pool-same k)

  -- a slot that is handed out was not before
  pub new_slot :
      (n i : ℕ) (p : ConnectionPool) (used : List ℕ) → Partition n p (i ∷ used) → count i used ≡ 0
  new_slot n i p used (idle, c, k) = let all = k i in ground (arith, all)
