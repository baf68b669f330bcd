-- ===== src/EventLoop/Handled.antt =====
-- When no event of a connection lacks its handler (src/net/net_event.c, src/net/tcp_server.c).
use xpipe.Base.{
  ◌≡◌, ◌≢◌, ◌⊎◌, inl, inr, refl, ◌∙◌, sym, ap, arith, Bool, true, false, Bool-cases, ◌&&◌, Option,
  none, some, if◌then◌else◌,
}
use xpipe.Connection.{Events, ev_none_event, any_event, Handler, tcp_server_send, Connection}
use xpipe.NetEvent.{Epoll, add_event, del_event, epoll_del_event}
use xpipe.NetEvent.Registration.{Added, add_event-Added}
use xpipe.NetEvent.Dispatch.{
  Dispatched, kept, closed, null_called, and_then, on_read, on_write, clean_events, close_or_add,
  process_one,
}
use xpipe.NetEvent.Watched.{add_event-close}
use xpipe.NetEvent.NullHandler.{Missing, handled, process_one_iff}
use xpipe.TcpServer.KeepsEvents.{Leaves}

-- between two passes: there is a handler for read events, and for write events if they are watched
abbrev pub Handled : Connection → Type 0
Handled c =
    (c.read_event_handler ≢ none)
    × (c.events.write ≡ true → c.write_event_handler ≢ none)
    × (c.dead_events.write ≡ false)

-- in a pass, the one for write events may be gone if these are to be given up
abbrev pub Midway : Connection → Type 0
Midway c =
    (c.read_event_handler ≢ none)
    × (c.events.write ≡ true → (c.write_event_handler ≢ none) ⊎ (c.dead_events.write ≡ true))

-- before its pass: a write event that is active is watched, and not both events are active
abbrev pub Pending : Connection → Type 0
Pending c =
    (c.active_events.write ≡ true → c.events.write ≡ true)
    × ((c.active_events.read && c.active_events.write) ≡ false)

pub Handled-Midway : (c : Connection) → Handled c → Midway c
Handled-Midway c (r, w, d) = (r, λ e. inl (w e))

pub Midway-Handled : (c : Connection) → any_event c.dead_events ≡ false → Midway c → Handled c
Midway-Handled c d (r, w) =
    let dead : c.dead_events.write ≡ false = ground (arith, d) in
    (r, λ e. elim (w e) [ inl h ↦ h | inr h ↦ absurd (ground (arith, h, dead)) ], dead)

pub Leaves-Midway : (c c' : Connection) → Leaves c c' → Midway c → Midway c'
Leaves-Midway c c' ((ad, fd, ev), (ac, rh, de, wh)) (r, w) = (
  λ e. r (sym rh ∙ e),
  λ e.
      let before : c.events.write ≡ true = sym (ap (λ (x : Events). x.write) ev) ∙ e in
      elim wh [
        | inr d ↦ inr d
        | inl same ↦ elim (w before) [ inl h ↦ inl (λ n. h (sym same ∙ n)) | inr d ↦ inr (de d) ]
      ],
)

module _ (ep : Epoll) where
  open ep use {Kernel}

  del_event-handlers :
      (c : Connection) (k : Kernel)
      → let c' = (del_event ep c c.dead_events k).1 in
        (c'.read_event_handler ≡ c.read_event_handler)
        × (c'.write_event_handler ≡ c.write_event_handler)
        × (c'.events.write ≡ true → (c.events.write ≡ true) × (c.dead_events.write ≡ false))
  unfolding del_event epoll_del_event
  del_event-handlers c k = (ground arith, ground arith, λ e. (ground (arith, e), ground (arith, e)))

  pub removed-Midway :
      (c : Connection) (k : Kernel)
      → Midway c
      → Midway (record ((del_event ep c c.dead_events k).1) { dead_events = ev_none_event })
  removed-Midway c k (r, w) =
      let (rh, wh, ev) = del_event-handlers c k in
      (
        λ e. r (sym rh ∙ e),
        λ e.
            let (before, alive) = ev e in
            elim (w before) [
              | inl h ↦ inl (λ n. h (sym wh ∙ n))
              | inr d ↦ absurd (ground (arith, d, alive))
            ],
      )

  added :
      (c : Connection) (k : Kernel) (o : Bool × Connection × Kernel)
      → Added ep c c.add_events tcp_server_send k o
      → o.1.dead_events ≡ c.dead_events
      → Midway c
      → Midway (record (o.1) { add_events = ev_none_event })
  added c k (false, c', k') (same, left) de (r, w) = rw same (r, w)
  added c k (true, c', k') (reg, again, ev, rh, wh) de (r, w) = (
    λ e. elim (Bool-cases c.add_events.read) [
      | inl y ↦ ground (arith, y, rh, e)
      | inr n ↦ r (ground (arith, n, rh, e))
    ],
    λ e. elim (Bool-cases c.add_events.write) [
      | inl y ↦ inl (λ n. ground (arith, y, wh, n))
      | inr n ↦
          let before : c.events.write ≡ true = ground (arith, ev, n, e) in
          elim (w before) [
            | inl h ↦ inl (λ x. h (ground (arith, wh, n, x)))
            | inr d ↦ inr (ap (λ (x : Events). x.write) de ∙ d)
          ]
    ],
  )

  pub added-Midway :
      (call : Handler → Connection → Kernel → Connection × Kernel) (c : Connection) (k : Kernel)
      → any_event c.add_events ≡ true
      → Midway c
      → Midway (record ((add_event ep c c.add_events tcp_server_send k).1) {
        add_events = ev_none_event;
      })
  added-Midway call c k a m =
      added c k (add_event ep c c.add_events tcp_server_send k)
        (add_event-Added ep c c.add_events tcp_server_send k a)
        (add_event-close ep call c c.add_events tcp_server_send k).1 m

  module _ (call : Handler → Connection → Kernel → Connection × Kernel) where
    -- a pass over a connection whose handlers are there calls them and not NULL
    pub process_one-Handled :
        ((h : Handler) (c : Connection) (k : Kernel)
          → (call h c k).0.active_events ≡ c.active_events)
        → (c : Connection) (k : Kernel) → Handled c
        → Pending c
        → process_one ep call c k ≢ null_called
    process_one-Handled same c k (r, w, d) (watching, single) e =
        elim ((process_one_iff ep call c k).0 e) [
          | inl (a, none_there) ↦ r none_there
          | inr m ↦ missing c.active_events.read c.read_event_handler refl m
        ]
      where
        missing :
            (b : Bool) (h : Option Handler)
            → c.active_events.read ≡ b
            → Missing
                (handled ep call b h c k).0.active_events.write
                (handled ep call b h c k).0.write_event_handler
            → ⊥
        missing false h e (a, m) = w (watching a) m
        missing true none e (a, m) = ground (arith, single, e, a)
        missing true (some h) e (a, m) =
            let active = same h c k in ground (arith, single, e, a, active)

    -- a connection that goes on has no event to give up
    abbrev pub Settled : Dispatched ep call → Type 0
    Settled (kept c k) = any_event c.dead_events ≡ false
    Settled (closed c k) = Unit {0}
    Settled null_called = Unit {0}

    Settled-then :
        (d : Dispatched ep call) (f : Connection → Kernel → Dispatched ep call)
        → ((c : Connection) (k : Kernel) → Settled (f c k))
        → Settled (and_then ep call d f)
    Settled-then (kept c k) f h = h c k
    Settled-then (closed c k) f h = tt
    Settled-then null_called f h = tt

    Settled-if :
        (b : Bool) (x y : Dispatched ep call) → Settled x → Settled y → Settled (if b then x else y)
    Settled-if true x y h g = h
    Settled-if false x y h g = g

    close_or_add-Settled :
        (c : Connection) (k : Kernel)
        → any_event c.dead_events ≡ false
        → Settled (close_or_add ep call c k)
    unfolding close_or_add
    close_or_add-Settled c k d =
        let same = (add_event-close ep call c c.add_events tcp_server_send k).1 in
        Settled-if c.close _ _ tt
          (Settled-if (any_event c.add_events) _ _ (ap any_event same ∙ d) d)

    rest-Settled :
        (c : Connection) (k : Kernel)
        → Settled (and_then ep call (clean_events ep call c k) (close_or_add ep call))
    unfolding clean_events
    rest-Settled c k = elim (Bool-cases (any_event c.dead_events)) [
      | inl e ↦ rw (e, clean_events) (close_or_add-Settled _ _ refl)
      | inr e ↦ rw (e, clean_events) (close_or_add-Settled c k e)
    ]

    pub process_one-Settled : (c : Connection) (k : Kernel) → Settled (process_one ep call c k)
    unfolding process_one
    process_one-Settled c k =
        Settled-then (on_read ep call c k) _
          (λ c₁ k₁. Settled-then (on_write ep call c₁ k₁) _ (λ c₂ k₂. rest-Settled c₂ k₂))
