-- ===== src/NetEvent/Carried.antt =====
-- What the handlers, `add_event` and `del_event` keep, a pass of `process_events` over a
-- connection keeps (src/net/net_event.c).
use xpipe.Base.{Bool, true, false, Option, none, some, ◌≡◌, refl, if◌then◌else◌}
use xpipe.Connection.{ev_none_event, any_event, Handler, tcp_server_send, Connection}
use xpipe.NetEvent.{Epoll, add_event, del_event}
use xpipe.NetEvent.Dispatch.{
  Dispatched, kept, closed, null_called, and_then, call_handler, on_read, on_write, clean_events,
  close_or_add, process_one,
}

module _ (ep : Epoll) (call : Handler → Connection → ep.Kernel → Connection × ep.Kernel)
    (Inv : Connection → ep.Kernel → Type 0) where
  open ep use {Kernel}

  -- the invariant holds behind each part of a pass
  pub record IsCarried : Type 0 where
    pub called :
        (h : Handler) (c : Connection) (k : Kernel) → Inv c k → Inv (call h c k).0 (call h c k).1
    pub removed :
        (c : Connection) (k : Kernel)
        → Inv c k
        → Inv
            (record ((del_event ep c c.dead_events k).1) { dead_events = ev_none_event })
            (del_event ep c c.dead_events k).2
    pub added :
        (c : Connection) (k : Kernel)
        → any_event c.add_events ≡ true
        → Inv c k
        → Inv
            (record ((add_event ep c c.add_events tcp_server_send k).1) {
              add_events = ev_none_event;
            })
            (add_event ep c c.add_events tcp_server_send k).2

  -- the invariant holds of the connection that goes on or is closed
  abbrev pub Carries : Dispatched ep call → Type 0
  Carries (kept c k) = Inv c k
  Carries (closed c k) = Inv c k
  Carries null_called = Unit {0}

  Carries-if :
      (b : Bool) (x y : Dispatched ep call)
      → (b ≡ true → Carries x)
      → (b ≡ false → Carries y)
      → Carries (if b then x else y)
  Carries-if true x y f g = f refl
  Carries-if false x y f g = g refl

  -- a part of the pass goes on in a way that keeps the invariant, and closes no connection
  abbrev Continues : Dispatched ep call → Type 0
  Continues (kept c k) = Inv c k
  Continues (closed c k) = ⊥
  Continues null_called = Unit {0}

  Continues-if :
      (b : Bool) (x y : Dispatched ep call)
      → Continues x
      → Continues y
      → Continues (if b then x else y)
  Continues-if true x y h g = h
  Continues-if false x y h g = g

  then_Carries :
      (d : Dispatched ep call) (f : Connection → Kernel → Dispatched ep call)
      → Continues d
      → ((c : Connection) (k : Kernel) → Inv c k → Carries (f c k))
      → Carries (and_then ep call d f)
  then_Carries (kept c k) f g h = h c k g
  then_Carries (closed c k) f g h = absurd g
  then_Carries null_called f g h = tt

  module _ (carried : IsCarried) where
    call_handler-Continues :
        (h : Option Handler) (c : Connection) (k : Kernel)
        → Inv c k
        → Continues (call_handler ep call h c k)
    call_handler-Continues none c k i = tt
    call_handler-Continues (some h) c k i = carried.called h c k i

    clean_events-Continues :
        (c : Connection) (k : Kernel) → Inv c k → Continues (clean_events ep call c k)
    unfolding clean_events
    clean_events-Continues c k i =
        Continues-if (any_event c.dead_events) _ _ (carried.removed c k i) i

    close_or_add-Carries :
        (c : Connection) (k : Kernel) → Inv c k → Carries (close_or_add ep call c k)
    unfolding close_or_add
    close_or_add-Carries c k i =
        Carries-if c.close _ _ (λ e. i)
          (λ e. Carries-if (any_event c.add_events) _ _ (λ a. carried.added c k a i) (λ a. i))

    pub process_one-Carries :
        (c : Connection) (k : Kernel) → Inv c k → Carries (process_one ep call c k)
    unfolding process_one on_read on_write
    process_one-Carries c k i =
        then_Carries (on_read ep call c k) _
          (Continues-if c.active_events.read _ _ (call_handler-Continues c.read_event_handler c k i)
            i)
          λ c₁ k₁ i₁.
            then_Carries (on_write ep call c₁ k₁) _
              (Continues-if c₁.active_events.write _ _
                (call_handler-Continues c₁.write_event_handler c₁ k₁ i₁) i₁)
              λ c₂ k₂ i₂.
                then_Carries (clean_events ep call c₂ k₂) _ (clean_events-Continues c₂ k₂ i₂)
                  close_or_add-Carries
