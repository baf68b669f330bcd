-- ===== src/NetEvent/Registration.antt =====
-- What the system watches is what the connection says (src/net/net_event.c, src/net/net_epoll.c).
use xpipe.Base.{
  ℕ, Bool, true, false, Option, none, some, ◌≡◌, ◌≢◌, inl, inr, refl, arith, ◌==◌, if◌then◌else◌,
  Bool-cases,
}
use xpipe.Connection.{Events, join_events, minus_events, any_event, Handler, Connection}
use xpipe.NetEvent.{
  ctl_add, ctl_mod, ctl_del, changed, Epoll, epoll_del_event, add_event, del_event,
}

-- the connection and its events to watch, or nothing if there is no event
abbrev pub watched : Connection → Option (ℕ × Events)
watched c = if any_event c.events then some (c.address, c.events) else none

module _ (ep : Epoll) where
  open ep use {Kernel, interest}

  -- the system watches the connection's events
  abbrev pub IsRegistered : Connection → Kernel → Type 0
  IsRegistered c k = interest k c.conn_fd ≡ watched c

  -- of what was watched in `k`, only the connection's descriptor is watched for other events
  abbrev pub Rewatched : Connection → Kernel → Kernel → Type 0
  Rewatched c k k' = (g : ℕ) → interest k' g ≡ (if g == c.conn_fd then watched c else interest k g)

  registered : (c : Connection) (k k' : Kernel) → Rewatched c k k' → IsRegistered c k'
  registered c k k' r = let now = r c.conn_fd in ground (arith, now)

  -- what adding events may do
  abbrev pub Added : Connection → Events → Handler → Kernel → Bool × Connection × Kernel → Type 0
  Added c e h k (true, c', k') =
      IsRegistered c' k'
      × Rewatched c' k k'
      × (c'.events ≡ join_events e c.events)
      × (c'.read_event_handler ≡ (if e.read then some h else c.read_event_handler))
      × (c'.write_event_handler ≡ (if e.write then some h else c.write_event_handler))
  Added c e h k (false, c', k') = (c' ≡ c) × ((g : ℕ) → interest k' g ≡ interest k g)

  -- With some event to add, `add_event` fails and leaves the connection and all that is watched,
  -- or the events are joined, their handlers set, and the system watches the joined events of
  -- this connection, and of the others what it did.
  pub add_event-Added :
      (c : Connection) (e : Events) (h : Handler) (k : Kernel)
      → any_event e ≡ true
      → Added c e h k (add_event ep c e h k)
  unfolding add_event
  add_event-Added c e h k some_event =
      let op = if any_event c.events then ctl_mod else ctl_add in
      let all = join_events e c.events in
      let stored : changed op c.address all ≡ watched (record c { events = all }) =
        ground (arith, some_event) in
      elim (Bool-cases ((ep.ctl op c.conn_fd c.address all k).0)) [
        | inl y ↦
            let now : Rewatched (record c { events = all }) k
                (ep.ctl op c.conn_fd c.address all k).1 =
              rw⁻¹ stored (ep.accepted op c.conn_fd c.address all k y) in
            rw y (registered (record c { events = all }) k _ now, now, refl, refl, refl)
        | inr n ↦ rw n (refl, ep.refused op c.conn_fd c.address all k n)
      ]

  -- what deleting events does
  abbrev pub Deleted : Connection → Events → Kernel → Bool × Connection × Kernel → Type 0
  Deleted c e k (done, c', k') =
      (done ≡ true)
      × IsRegistered c' k'
      × Rewatched c' k k'
      × (c'.events ≡ minus_events c.events e)
      × (c'.read_event_handler ≡ c.read_event_handler)
      × (c'.write_event_handler ≡ c.write_event_handler)

  -- Of a connection whose events the system watches, `del_event` always succeeds. It takes the
  -- given events off, keeps the handlers, and the system watches what is left of this connection's
  -- events, and of the others what it did.
  pub del_event-Deleted :
      (c : Connection) (e : Events) (k : Kernel)
      → IsRegistered c k
      → Deleted c e k (del_event ep c e k)
  unfolding del_event epoll_del_event
  del_event-Deleted c e k r = elim (Bool-cases (any_event c.events)) [
    | inr n ↦ rw n (refl, r, λ g. ground (arith, n, r), ground (arith, n), refl, refl)
    | inl y ↦
        let rest = minus_events c.events e in
        let watched_before : interest k c.conn_fd ≢ none = ground (arith, r, y) in
        let op = if any_event rest then ctl_mod else ctl_del in
        let went : (ep.ctl op c.conn_fd c.address rest k).0 ≡ true =
          elim (Bool-cases (any_event rest)) [
            | inl a ↦ rw a (ep.mod_watched c.conn_fd c.address rest k watched_before)
            | inr a ↦ rw a (ep.del_watched c.conn_fd c.address rest k watched_before)
          ] in
        let stored : changed op c.address rest ≡ watched (record c { events = rest }) =
          ground arith in
        let now : Rewatched (record c { events = rest }) k
            (ep.ctl op c.conn_fd c.address rest k).1 =
          rw⁻¹ stored (ep.accepted op c.conn_fd c.address rest k went) in
        rw y (refl, registered (record c { events = rest }) k _ now, now, refl, refl, refl)
  ]
