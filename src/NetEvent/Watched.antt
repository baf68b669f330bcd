-- ===== src/NetEvent/Watched.antt =====
-- Behind `process_events` (src/net/net_event.c) the system watches what the connections say.
use xpipe.Base.{Bool, true, false, Option, none, some, ◌≡◌, refl, ◌∙◌, ap, arith, if◌then◌else◌}
use xpipe.Connection.{Events, any_event, Handler, tcp_server_send, Connection}
use xpipe.NetEvent.{Epoll, add_event, epoll_add_event}
use xpipe.NetEvent.Registration.{IsRegistered, Added, add_event-Added, del_event-Deleted}
use xpipe.NetEvent.Dispatch.{
  Dispatched, kept, closed, null_called, and_then, call_handler, on_read, on_write, clean_events,
  close_or_add, process_one,
}

module _ (ep : Epoll) (call : Handler → Connection → ep.Kernel → Connection × ep.Kernel) where
  open ep use {Kernel, interest}

  -- the handlers leave the connection watched for just the events that it says
  abbrev pub LeavesEvents : Type 0
  LeavesEvents =
      (h : Handler) (c : Connection) (k : Kernel)
      → IsRegistered ep c k
      → IsRegistered ep (call h c k).0 (call h c k).1

  abbrev Good : Dispatched ep call → Type 0
  Good (kept c k) = IsRegistered ep c k
  Good (closed c k) = ⊥
  Good null_called = Unit {0}

  -- A connection that goes on is watched for just the events it says, is not to be closed and has
  -- no request to add or give up events left. One that was closed is the same, but for its events
  -- to add.
  abbrev pub Watched : Dispatched ep call → Type 0
  Watched (kept c k) =
      IsRegistered ep c k
      × (c.close ≡ false)
      × (any_event c.dead_events ≡ false)
      × (any_event c.add_events ≡ false)
  Watched (closed c k) = IsRegistered ep c k × (c.close ≡ true) × (any_event c.dead_events ≡ false)
  Watched null_called = Unit {0}

  call_handler-Good :
      LeavesEvents
      → (h : Option Handler) (c : Connection) (k : Kernel) → IsRegistered ep c k
      → Good (call_handler ep call h c k)
  call_handler-Good l none c k r = tt
  call_handler-Good l (some h) c k r = l h c k r

  Good-if : (b : Bool) (x y : Dispatched ep call) → Good x → Good y → Good (if b then x else y)
  Good-if true x y h g = h
  Good-if false x y h g = g

  on_read-Good :
      LeavesEvents
      → (c : Connection) (k : Kernel) → IsRegistered ep c k
      → Good (on_read ep call c k)
  unfolding on_read
  on_read-Good l c k r =
      Good-if c.active_events.read _ _ (call_handler-Good l c.read_event_handler c k r) r

  on_write-Good :
      LeavesEvents
      → (c : Connection) (k : Kernel) → IsRegistered ep c k
      → Good (on_write ep call c k)
  unfolding on_write
  on_write-Good l c k r =
      Good-if c.active_events.write _ _ (call_handler-Good l c.write_event_handler c k r) r

  pub add_event-close :
      (c : Connection) (e : Events) (h : Handler) (k : Kernel)
      → ((add_event ep c e h k).1.close ≡ c.close)
        × ((add_event ep c e h k).1.dead_events ≡ c.dead_events)
  unfolding add_event epoll_add_event
  add_event-close c e h k = ground arith

  -- behind the cleaning
  abbrev Clean : Dispatched ep call → Type 0
  Clean (kept c k) = IsRegistered ep c k × (any_event c.dead_events ≡ false)
  Clean (closed c k) = ⊥
  Clean null_called = ⊥

  Clean-if :
      (b : Bool) (x y : Dispatched ep call)
      → (b ≡ true → Clean x)
      → (b ≡ false → Clean y)
      → Clean (if b then x else y)
  Clean-if true x y f g = f refl
  Clean-if false x y f g = g refl

  Watched-if :
      (b : Bool) (x y : Dispatched ep call)
      → (b ≡ true → Watched x)
      → (b ≡ false → Watched y)
      → Watched (if b then x else y)
  Watched-if true x y f g = f refl
  Watched-if false x y f g = g refl

  clean_events-Clean :
      (c : Connection) (k : Kernel) → IsRegistered ep c k → Clean (clean_events ep call c k)
  unfolding clean_events
  clean_events-Clean c k r =
      Clean-if (any_event c.dead_events) _ _
        (λ _. ((del_event-Deleted ep c c.dead_events k r).1, refl)) (λ e. (r, e))

  close_or_add-Watched :
      (c : Connection) (k : Kernel) → Clean (kept c k) → Watched (close_or_add ep call c k)
  unfolding close_or_add
  close_or_add-Watched c k (r, d) =
      Watched-if c.close _ _ (λ e. (r, e, d))
        (λ e.
          Watched-if (any_event c.add_events) _ _
            (λ a. (
              registered (add_event ep c c.add_events tcp_server_send k)
                  (add_event-Added ep c c.add_events tcp_server_send k a),
              (add_event-close c c.add_events tcp_server_send k).0 ∙ e,
              ap any_event (add_event-close c c.add_events tcp_server_send k).1 ∙ d,
              refl,
            ))
            (λ a. (r, e, d, a)))
    where
      registered :
          (o : Bool × Connection × Kernel)
          → Added ep c c.add_events tcp_server_send k o
          → IsRegistered ep o.1 o.2
      registered (true, c', k') h = h.0
      registered (false, c', k') (same, left) = rw (same, left c.conn_fd) r

  then_Watched :
      (d : Dispatched ep call) (f : Connection → Kernel → Dispatched ep call)
      → Good d
      → ((c : Connection) (k : Kernel) → IsRegistered ep c k → Watched (f c k))
      → Watched (and_then ep call d f)
  then_Watched (kept c k) f g h = h c k g
  then_Watched (closed c k) f g h = absurd g
  then_Watched null_called f g h = tt

  cleaned-Watched :
      (d : Dispatched ep call) → Clean d → Watched (and_then ep call d (close_or_add ep call))
  cleaned-Watched (kept c k) g = close_or_add-Watched c k g
  cleaned-Watched (closed c k) g = absurd g
  cleaned-Watched null_called g = absurd g

  -- If the system watches just the events that a connection says and the handlers leave that so,
  -- then the pass over the connection, whichever of its events are active, ends in one of these:
  -- the connection goes on, not to be closed and with no event left to add or give up; it was to be
  -- closed and is, its events given up; or a handler was called that is NULL. In the first two
  -- cases the system watches just the events that the connection says.
  pub process_one-Watched :
      LeavesEvents
      → (c : Connection) (k : Kernel) → IsRegistered ep c k
      → Watched (process_one ep call c k)
  unfolding process_one
  process_one-Watched l c k r =
      then_Watched (on_read ep call c k) _ (on_read-Good l c k r) λ c₁ k₁ r₁.
        then_Watched (on_write ep call c₁ k₁) _ (on_write-Good l c₁ k₁ r₁)
          λ c₂ k₂ r₂. cleaned-Watched (clean_events ep call c₂ k₂) (clean_events-Clean c₂ k₂ r₂)
