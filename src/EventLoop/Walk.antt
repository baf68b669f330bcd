-- ===== src/EventLoop/Walk.antt =====
-- The walk of `process_events` (src/net/net_event.c) along the links is a pass over a list.
use xpipe.Base.{
  ℕ, zero, suc, ◌≤◌, ◌≡◌, ◌⊎◌, inl, inr, refl, arith, Bool, List, [], ◌∷◌, Option, none, some,
  count, length,
}
use xpipe.Connection.{Events, Handler, Connection}
use xpipe.NetEvent.{Epoll, add_event, del_event, epoll_add_event, epoll_del_event}
use xpipe.NetEvent.Dispatch.{Dispatched, kept, closed, null_called, process_one}
use xpipe.NetEvent.Carried.{IsCarried, Carries, process_one-Carries}
use xpipe.TcpServer.Slots.{Partition}
use xpipe.TcpServer.Accept.{Sockets, Table, tcp_server_accept}
use xpipe.TcpServer.Owned.{Owned, tcp_server_accept-Owned}
use xpipe.EventLoop.{
  with_table, ClientHandlers, epoll_polling, World, accept_on, call, slot_done, process_slot,
  Walked, done, null_handler, running, walk, process_events,
}
use xpipe.EventLoop.Links.{
  Linked, Behind, Behind-kept, Behind-Linked, Behind-free, newest_first, length-newest_first,
  epoll_polling-Linked,
}

module _ (ep : Epoll) (so : Sockets ep) (handlers : ClientHandlers ep) where
  -- a pass over a list of slots, in its order; there is no result if a handler was NULL
  unfoldable pub serve : List ℕ → World ep so handlers → Option (World ep so handlers)
  serve [] w = some w
  serve (i ∷ is) w = elim (process_slot ep so handlers i w) [
    | none ↦ none
    | some (next, w') ↦ serve is w'
  ]

  abbrev pub ended : Option (World ep so handlers) → Walked ep so handlers
  ended none = null_handler
  ended (some w) = done w

  -- the walk has ended, and each slot is in the pool or handed out
  abbrev pub Settled : ℕ → Walked ep so handlers → Type 0
  Settled n (done w) = (used : List ℕ) × Partition n w.1.pool used
  Settled n null_handler = Unit {0}
  Settled n running = ⊥

  pub del_event-table :
      (c : Connection) (e : Events) (w : World ep so handlers)
      → (del_event (with_table ep) c e w).2.1 ≡ w.1
  unfolding del_event epoll_del_event
  del_event-table c e w = ground arith

  pub add_event-table :
      (c : Connection) (e : Events) (h : Handler) (w : World ep so handlers)
      → (add_event (with_table ep) c e h w).2.1 ≡ w.1
  unfolding add_event epoll_add_event
  add_event-table c e h w = ground arith

  accept_on-Behind :
      (n i : ℕ) (js : List ℕ) (c : Connection) (w : World ep so handlers)
      → Behind n i js w.1
      → Behind n i js
          (accept_on ep so handlers c w (
            tcp_server_accept ep so handlers.nodelay
              (suc (so.interruptions w.0))
              c.conn_fd
              w.0
              w.1)).1.1
  accept_on-Behind n i js c w (used, p, within, chain) =
      let (r, e, o) =
        tcp_server_accept-Owned ep so n handlers.nodelay (suc (so.interruptions w.0)) c.conn_fd w.0
          w.1 used p (omega arith) in
      rw e (owned r o)
    where
      owned : (r : Bool × ep.Kernel × Table) → Owned ep so n w.0 w.1 used r → Behind n i js r.2
      owned (ok, k', t') (inl (e, (q, same, d))) =
          Behind-kept n i js w.1 t' used used within chain same q (λ j. omega arith)
      owned (ok, k', t') (inr (fd, x, q, same, d₁, d₂, d₃, d₄, d₅, d₆, d₇, d₈)) =
          Behind-kept n i js w.1 t' used (x ∷ used) within chain same q (λ j. ground arith)

  carried :
      (n i : ℕ) (js : List ℕ)
      → IsCarried (with_table ep) (call ep so handlers) (λ c w. Behind n i js w.1)
  unfolding call
  carried n i js = record {
    called = called;
    removed = λ c w b. rw (del_event-table c c.dead_events w) b;
    added = λ c w a b. rw (add_event-table c c.add_events Handler.tcp_server_send w) b;
  }
    where
      called :
          (h : Handler) (c : Connection) (w : World ep so handlers)
          → Behind n i js w.1
          → Behind n i js (call ep so handlers h c w).1.1
      called Handler.tcp_server_accept c w b = accept_on-Behind n i js c w b
      called Handler.tcp_server_recv c (k, t) b = b
      called Handler.tcp_server_send c (k, t) b = b

  process_slot-Linked :
      (n i : ℕ) (js : List ℕ) (w : World ep so handlers)
      → Behind n i js w.1
      → (process_slot ep so handlers i w ≡ none)
        ⊎ ((next : Option ℕ) × (w' : World ep so handlers) × (process_slot ep so handlers i w
              ≡ some (next, w'))
            × Linked n next js w'.1)
  unfolding process_slot
  process_slot-Linked n i js w b =
      through (process_one (with_table ep) (call ep so handlers) (w.1.slots i) w) (
        process_one-Carries (with_table ep) (call ep so handlers) (λ c w. Behind n i js w.1)
          (carried n i js) (w.1.slots i) w b)
    where
      through :
          (d : Dispatched (with_table ep) (call ep so handlers))
          → Carries (with_table ep) (call ep so handlers) (λ c w. Behind n i js w.1) d
          → (slot_done ep so handlers i d ≡ none)
            ⊎ ((next : Option ℕ) × (w' : World ep so handlers) × (slot_done ep so handlers i d
                  ≡ some (next, w'))
                × Linked n next js w'.1)
      through (kept c (k, t)) b = inr (_, _, refl, Behind-Linked n i js c t b)
      through (closed c (k, t)) b = inr (_, _, refl, Behind-free n i js c t b)
      through null_called b = inl refl

  walk-serve :
      (n f : ℕ) (js : List ℕ) (h : Option ℕ) (w : World ep so handlers)
      → length js ≤ f
      → Linked n h js w.1
      → (walk ep so handlers f h w ≡ ended (serve js w)) × Settled n (walk ep so handlers f h w)
  unfolding walk serve
  walk-serve n zero [] h w l (used, p, within, c) = rw c (refl, (used, p))
  walk-serve n zero (i ∷ js) h w l b = absurd (omega arith)
  walk-serve n (suc f) [] h w l (used, p, within, c) = rw c (refl, (used, p))
  walk-serve n (suc f) (i ∷ js) h w l (used, p, within, (e, c)) =
      rw e (elim (process_slot-Linked n i js w (used, p, within, c)) [
        | inl null ↦ rw (null, walk, serve) (refl, tt)
        | inr (next, w', went, b) ↦
            rw (went, walk, serve) (walk-serve n f js next w' (omega arith) b)
      ])

  -- Let the slots be in the pool or handed out, and the system report a slot at most once and only
  -- those that are handed out. Then a round of `process_events`, with as much fuel as there are
  -- reports, serves exactly the slots that were reported, each once and the last one first, whatever
  -- the handlers do: those of a client to their own connection, and `tcp_server_accept` to the
  -- pool; though closed connections are given back on the way, and the pool's links share the
  -- field of the walk's. The round stops early only at a handler that is NULL, and else leaves each
  -- slot once in the pool or handed out once.
  pub process_events-serve :
      (n f : ℕ) (ready : List (ℕ × Events)) (k : ep.Kernel) (t : Table) (used : List ℕ)
      → Partition n t.pool used
      → ((j : ℕ) → count j (newest_first ready []) ≤ count j used)
      → length ready ≤ f
      → (process_events ep so handlers f ready (k, t)
          ≡ ended (serve (newest_first ready []) (k, (epoll_polling ready none t).1)))
        × Settled n (process_events ep so handlers f ready (k, t))
  unfolding process_events
  process_events-serve n f ready k t used p within l =
      let size = length-newest_first ready [] in
      walk-serve n f (newest_first ready []) (epoll_polling ready none t).0
        (k, (epoll_polling ready none t).1) (omega arith)
        (epoll_polling-Linked n ready none [] t used p within refl)
