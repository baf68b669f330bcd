-- ===== src/EventLoop/Rounds.antt =====
-- A round of `process_events` (src/net/net_event.c) leaves the connections as the system has them.
use xpipe.Base.{
  ℕ, ◌≤◌, ◌≡◌, ◌⊎◌, inl, inr, refl, sym, fun_ext, ap, subst, arith, Bool-cases, List, [], ◌∷◌, ◌++◌,
  Option, none, some, ◌==◌, count, length,
}
use xpipe.Connection.{Events}
use xpipe.NetEvent.{Epoll}
use xpipe.NetEvent.Dispatch.{Dispatched, kept, closed, null_called, process_one}
use xpipe.NetEvent.Carried.{Carries, process_one-Carries}
use xpipe.TcpServer.Slots.{count-append}
use xpipe.TcpServer.Accept.{Sockets, Table, store}
use xpipe.EventLoop.{
  with_table, ClientHandlers, epoll_polling, World, call, slot_done, process_slot, Walked, done,
  null_handler, running, process_events,
}
use xpipe.EventLoop.Links.{split_at, newest_first}
use xpipe.EventLoop.Walk.{serve, ended, process_events-serve}
use xpipe.EventLoop.Consistent.{IsConsistent, close-IsConsistent}
use xpipe.EventLoop.Pass.{LeaveDescriptors, Held, in_use, carried}
use xpipe.EventLoop.Polling.{epoll_polling-IsConsistent}

module _ (ep : Epoll) (so : Sockets ep) (handlers : ClientHandlers ep) where
  open ep use {Kernel, interest}
  open so use {is_open}

  -- the slots `js` and others are handed out, and all is consistent
  abbrev Ready : ℕ → List ℕ → World ep so handlers → Type 0
  Ready n js w =
      (used : List ℕ) × ((j : ℕ) → count j js ≤ count j used) × IsConsistent ep so n w.0 w.1 used

  store_self :
      (n i : ℕ) (w : World ep so handlers) (used : List ℕ)
      → IsConsistent ep so n w.0 w.1 used
      → IsConsistent ep so n w.0 (store i (w.1.slots i) w.1) used
  store_self n i w used v =
      let same : (store i (w.1.slots i) w.1).slots ≡ w.1.slots = fun_ext (λ j.
        elim (Bool-cases (j == i)) [
          | inl e ↦ let it : j ≡ i = ground (arith, e) in rw e (ap w.1.slots (sym it))
          | inr e ↦ rw e refl
        ]) in
      rw same v

  process_slot-Ready :
      LeaveDescriptors ep so handlers
      → (n i : ℕ) (js : List ℕ) (w : World ep so handlers) → Ready n (i ∷ js) w
      → (process_slot ep so handlers i w ≡ none)
        ⊎ ((next : Option ℕ) × (w' : World ep so handlers) × (process_slot ep so handlers i w
              ≡ some (next, w'))
            × Ready n js w')
  unfolding process_slot slot_done
  process_slot-Ready leave n i js w (used, within, v) =
      through (process_one (with_table ep) (call ep so handlers) (w.1.slots i) w) (
        process_one-Carries (with_table ep) (call ep so handlers) (Held ep so handlers n i js)
          (carried ep so handlers leave n i js) (w.1.slots i) w
          (used, within, store_self n i w used v))
    where
      through :
          (d : Dispatched (with_table ep) (call ep so handlers))
          → Carries (with_table ep) (call ep so handlers) (Held ep so handlers n i js) d
          → (slot_done ep so handlers i d ≡ none)
            ⊎ ((next : Option ℕ) × (w' : World ep so handlers) × (slot_done ep so handlers i d
                  ≡ some (next, w'))
                × Ready n js w')
      through (kept c (k, t)) (u, within, v) =
          inr (_, _, refl, (u, λ j. let w = within j in ground (arith, w), v))
      through (closed c (k, t)) (u, within, v) =
          let (us, vs, e) = split_at i u (in_use ep so handlers i js u within) in
          let v' : IsConsistent ep so n k (store i c t) (us ++ i ∷ vs) =
            subst (IsConsistent ep so n k (store i c t)) e v in
          inr (
            _,
            _,
            refl,
            (
              us ++ vs,
              λ j.
                  let w = within j in
                  let total = ap (count j) e in
                  omega (arith, w, total, count-append j us vs, count-append j us (i ∷ vs)),
              close-IsConsistent ep so n i k c t us vs v',
            ),
          )
      through null_called b = inl refl

  -- all is consistent where the pass ends; one that a NULL handler stops says nothing
  abbrev Fits : ℕ → Option (World ep so handlers) → Type 0
  Fits n none = Unit {0}
  Fits n (some w) = (used : List ℕ) × IsConsistent ep so n w.0 w.1 used

  serve-Fits :
      LeaveDescriptors ep so handlers
      → (n : ℕ) (js : List ℕ) (w : World ep so handlers) → Ready n js w
      → Fits n (serve ep so handlers js w)
  unfolding serve
  serve-Fits leave n [] w (used, within, v) = (used, v)
  serve-Fits leave n (i ∷ js) w r = elim (process_slot-Ready leave n i js w r) [
    | inl e ↦ rw (e, serve) tt
    | inr (next, w', e, r') ↦ rw (e, serve) (serve-Fits leave n js w' r')
  ]

  -- the round is over and all is consistent, or a handler was NULL
  abbrev pub Stays : ℕ → Walked ep so handlers → Type 0
  Stays n (done w) = (used : List ℕ) × IsConsistent ep so n w.0 w.1 used
  Stays n null_handler = Unit {0}
  Stays n running = ⊥

  Fits-Stays :
      (n : ℕ) (o : Option (World ep so handlers)) → Fits n o → Stays n (ended ep so handlers o)
  Fits-Stays n none f = tt
  Fits-Stays n (some w) f = f

  -- Let each slot be in the pool or handed out, and let the connections that are handed out have
  -- descriptors of their own, open and watched for just the events that they say. Let the system
  -- report slots at most once and only those that are handed out, and the handlers of clients
  -- leave descriptors and what is watched alone. Then the same holds behind a round of
  -- `process_events` with as much fuel as there are reports, of the connections that are handed
  -- out then: through whatever was received, sent, accepted, added, given up and closed in it. Or
  -- the round meets a handler that is NULL.
  pub process_events-IsConsistent :
      LeaveDescriptors ep so handlers
      → (n f : ℕ) (ready : List (ℕ × Events)) (k : Kernel) (t : Table) (used : List ℕ)
      → IsConsistent ep so n k t used
      → ((j : ℕ) → count j (newest_first ready []) ≤ count j used)
      → length ready ≤ f
      → Stays n (process_events ep so handlers f ready (k, t))
  process_events-IsConsistent leave n f ready k t used v within l =
      let w : World ep so handlers = (k, (epoll_polling ready none t).1) in
      let fits =
        serve-Fits leave n (newest_first ready []) w
          (used, within, epoll_polling-IsConsistent ep so n ready [] none k t used within v) in
      rw (process_events-serve ep so handlers n f ready k t used v.partition within l).0
        (Fits-Stays n (serve ep so handlers (newest_first ready []) w) fits)
