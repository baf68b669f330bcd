-- ===== src/TcpServer/Descriptors.antt =====
-- Which descriptors the loop around `accept` leaves open (src/net/tcp_server.c).
use xpipe.Base.{
  ℕ, zero, suc, ◌<◌, ◌≡◌, ◌⊎◌, inl, inr, refl, arith, false, ◌||◌, Option, none, some, ◌==◌,
  if◌then◌else◌, Bool-cases,
}
use xpipe.Connection.{Events, join_events, any_event, Handler, Connection}
use xpipe.NetEvent.{Epoll, ctl_add, ctl_mod, add_event, epoll_add_event}
use xpipe.TcpServer.Accept.{Accepted, accepted, interrupted, refused, opens, Sockets, accept_loop}

Accepted-cases : (a : Accepted) → ((fd : ℕ) × (a ≡ accepted fd)) ⊎ (a ≡ interrupted) ⊎ (a ≡ refused)
Accepted-cases (accepted fd) = inl (fd, refl)
Accepted-cases interrupted = inr (inl refl)
Accepted-cases refused = inr (inr refl)

module _ (ep : Epoll) (so : Sockets ep) where
  open ep use {Kernel, interest}
  open so use {is_open}

  -- the same descriptors are open and watched
  abbrev pub SameDescriptors : Kernel → Kernel → Type 0
  SameDescriptors k k' = (g : ℕ) → (is_open k' g ≡ is_open k g) × (interest k' g ≡ interest k g)

  -- the descriptor `fd` is open in `k'`, and else `k'` is as `k`
  abbrev pub Opened : ℕ → Kernel → Kernel → Type 0
  Opened fd k k' =
      (is_open k fd ≡ false)
      × ((g : ℕ) → is_open k' g ≡ (g == fd || is_open k g))
      × ((g : ℕ) → interest k' g ≡ interest k g)

  pub closed-Opened :
      (fd : ℕ) (k k' : Kernel) → Opened fd k k' → SameDescriptors k (so.close_fd fd k')
  closed-Opened fd k k' (new, open_now, watched_now) g =
      let before = so.closed_unwatched k fd new in
      let gone = so.close-open fd k' g in
      let unwatched = so.close-interest fd k' g in
      let o = open_now g in
      let w = watched_now g in
      elim (Bool-cases (g == fd)) [
        | inl e ↦
            let same : g ≡ fd = ground (arith, e) in
            (ground (arith, gone, e, same, new), ground (arith, unwatched, e, same, before))
        | inr e ↦ (ground (arith, gone, e, o), ground (arith, unwatched, e, w))
      ]

  -- what the `for` has come to
  abbrev pub Taken : Kernel → Option ℕ → Kernel → Type 0
  Taken k none k' = SameDescriptors k k'
  Taken k (some fd) k' = Opened fd k k'

  Taken-later :
      (k k₁ : Kernel) (a : Option ℕ) (k' : Kernel)
      → SameDescriptors k k₁
      → Taken k₁ a k'
      → Taken k a k'
  Taken-later k k₁ none k' same h = λ g. let s = same g in let now = h g in ground (arith, s, now)
  Taken-later k k₁ (some fd) k' same (new, o, w) = (
    let s = same fd in ground (arith, s, new),
    λ g. let s = same g in let now = o g in ground (arith, s, now),
    λ g. let s = same g in let now = w g in ground (arith, s, now),
  )

  not_taken :
      (s : ℕ) (k : Kernel)
      → ((g : ℕ) → opens (so.accept s k).0 g ≡ false)
      → SameDescriptors k (so.accept s k).1
  not_taken s k h g =
      let o = so.accept-open s k g in
      let e = h g in (ground (arith, o, e), so.accept-interest s k g)

  pub accept_loop-Taken :
      (f s : ℕ) (k : Kernel)
      → so.interruptions k < f
      → (a : Option ℕ) × (k' : Kernel) × (accept_loop ep so f s k ≡ some (a, k')) × Taken k a k'
  unfolding accept_loop
  accept_loop-Taken zero s k h = elim h [ ]
  accept_loop-Taken (suc f) s k h = elim (Accepted-cases (so.accept s k).0) [
    | inl (fd, e) ↦
        rw (e, accept_loop)
          (
            some fd,
            (so.accept s k).1,
            refl,
            (
              so.accept-new s k fd (ground (arith, e)),
              λ g. let o = so.accept-open s k g in ground (arith, o, e),
              so.accept-interest s k,
            ),
          )
    | inr (inl e) ↦
        let k₁ = (so.accept s k).1 in
        let fewer = so.accept-interrupted s k e in
        let (a, k', q, t) = accept_loop-Taken f s k₁ (omega arith) in
        rw (e, accept_loop)
          (a, k', q, Taken-later k k₁ a k' (not_taken s k (λ g. ground (arith, e))) t)
    | inr (inr e) ↦
        rw (e, accept_loop) (none, (so.accept s k).1, refl, not_taken s k (λ g. ground (arith, e)))
  ]

  pub Opened-later :
      (fd : ℕ) (k k₁ k₂ : Kernel) → Opened fd k k₁ → SameDescriptors k₁ k₂ → Opened fd k k₂
  Opened-later fd k k₁ k₂ (new, o, w) same = (
    new,
    λ g. let now = o g in let s = same g in ground (arith, now, s),
    λ g. let now = w g in let s = same g in ground (arith, now, s),
  )

  -- `add_event` opens and closes nothing, and leaves what it does not say of the connection
  pub add_event-leaves :
      (c : Connection) (e : Events) (h : Handler) (k : Kernel)
      → ((add_event ep c e h k).1.address ≡ c.address)
        × ((add_event ep c e h k).1.conn_fd ≡ c.conn_fd)
        × ((add_event ep c e h k).1.is_listen ≡ c.is_listen)
        × ((add_event ep c e h k).1.dead_events ≡ c.dead_events)
        × ((g : ℕ) → is_open (add_event ep c e h k).2 g ≡ is_open k g)
  unfolding add_event epoll_add_event
  add_event-leaves c e h k = (
    ground arith,
    ground arith,
    ground arith,
    ground arith,
    λ g.
        let op = if any_event c.events then ctl_mod else ctl_add in
        let same = so.ctl-open op c.conn_fd c.address (join_events e c.events) k g in
        ground (arith, same),
  )
