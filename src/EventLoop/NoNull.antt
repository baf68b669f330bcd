-- ===== src/EventLoop/NoNull.antt =====
-- A round of `process_events` (src/net/net_event.c) calls no NULL if the system never reports both
-- events of a connection at once.
use xpipe.Base.{
  ℕ, ◌<◌, ◌≤◌, ◌≡◌, inl, inr, refl, ◌∙◌, sym, ap, subst, arith, false, ◌&&◌, Bool-cases, List, [],
  ◌∷◌, Option, none, some, ◌==◌, if◌then◌else◌, count, length,
}
use xpipe.Connection.{Events, any_event}
use xpipe.NetEvent.{Epoll}
use xpipe.TcpServer.ConnectionPool.{ConnectionPool}
use xpipe.TcpServer.Slots.{Chain, Partition}
use xpipe.TcpServer.Accept.{Sockets, Table}
use xpipe.EventLoop.{ClientHandlers, World, poll_one, epoll_polling, done, process_events}
use xpipe.EventLoop.Links.{newest_first}
use xpipe.EventLoop.Walk.{process_events-serve, ended}
use xpipe.EventLoop.Consistent.{IsConsistent}
use xpipe.EventLoop.Polling.{poll_one-IsConsistent}
use xpipe.EventLoop.Reports.{Reported, Reported-within}
use xpipe.EventLoop.Pass.{LeaveDescriptors}
use xpipe.EventLoop.Handled.{Handled, Pending}
use xpipe.EventLoop.Served.{serve-Ready}

-- no report has both events
abbrev pub Single : List (ℕ × Events) → Type 0
Single [] = Unit {0}
Single ((i, e) ∷ ready) = ((e.read && e.write) ≡ false) × Single ready

-- the connections that are handed out have their handlers
abbrev pub AllHandled : ℕ → Table → Type 0
AllHandled n t =
    (used : List ℕ) → Partition n t.pool used → (j : ℕ) → 0 < count j used → Handled (t.slots j)

Chain-unique :
    (next : ℕ → Option ℕ) (h : Option ℕ) (is js : List ℕ)
    → Chain next h is
    → Chain next h js
    → is ≡ js
Chain-unique next h [] [] c d = refl
Chain-unique next h [] (j ∷ js) c (e, d) = cc
Chain-unique next h (i ∷ is) [] (e, c) d = cc
Chain-unique next h (i ∷ is) (j ∷ js) (e, c) (e', d) =
    let same : i ≡ j = cc in
    let d' : Chain next (next i) js = subst (λ x. Chain next (next x) js) (sym same) d in
    ap (◌∷◌ i) (Chain-unique next (next i) is js c d') ∙ ap (λ x. x ∷ js) same

-- which slots are handed out is settled by the pool
pub Partition-unique :
    (n : ℕ) (s : ConnectionPool) (us vs : List ℕ)
    → Partition n s us
    → Partition n s vs
    → (j : ℕ) → count j us ≡ count j vs
Partition-unique n s us vs (idle, c, p) (idle', d, q) j =
    let same = ap (count j) (Chain-unique s.next s.connection_pool idle idle' c d) in
    let a = p j in let b = q j in omega (arith, same, a, b)

module _ (ep : Epoll) (so : Sockets ep) (n : ℕ) (k : ep.Kernel) (used : List ℕ) where
  polled :
      (ready : List (ℕ × Events)) (seen js : List ℕ) (h : Option ℕ) (t : Table)
      → IsConsistent ep so n k t used
      → Reported ep k seen ready
      → Single ready
      → ((j : ℕ) → 0 < count j used → Handled (t.slots j))
      → ((j : ℕ) → 0 < count j js → Pending (t.slots j))
      → Partition n (epoll_polling ready h t).1.pool used
        × ((j : ℕ) → 0 < count j used → Handled ((epoll_polling ready h t).1.slots j))
        × ((j : ℕ)
            → 0 < count j (newest_first ready js)
            → Pending ((epoll_polling ready h t).1.slots j))
  unfolding epoll_polling poll_one
  polled [] seen js h t v r s all pending = (v.partition, all, pending)
  polled ((i, e) ∷ ready) seen js h t v (fd, w, watching, rd, wr, new, r) (single, s) all pending =
      let (there, its) = v.owned fd i w watching in
      let registered : ep.interest k fd ≡ (
          if any_event (t.slots i).events
          then some ((t.slots i).address, (t.slots i).events)
          else none) =
        subst
          (λ g. ep.interest k g ≡ (
            if any_event (t.slots i).events
            then some ((t.slots i).address, (t.slots i).events)
            else none))
          its (v.registered i there) in
      let events : w ≡ (t.slots i).events = ground (arith, registered, watching) in
      polled ready (fd ∷ seen) (i ∷ js) (some i) (poll_one i e h t)
        (poll_one-IsConsistent ep so n i e h k t used there v) r s
        (λ j u. elim (Bool-cases (j == i)) [ inl q ↦ rw q (all i there) | inr q ↦ rw q (all j u) ])
        (λ j u. elim (Bool-cases (j == i)) [
          | inl q ↦ rw q (λ x. sym (ap (λ (y : Events). y.write) events) ∙ wr x, single)
          | inr q ↦ rw q (pending j (ground (arith, u, q)))
        ])

module _ (ep : Epoll) (so : Sockets ep) (handlers : ClientHandlers ep)
    (leave : LeaveDescriptors ep so handlers) where
  pub process_events-AllHandled :
      (n f : ℕ) (ready : List (ℕ × Events)) (k : ep.Kernel) (t : Table) (used : List ℕ)
      → IsConsistent ep so n k t used
      → AllHandled n t
      → Reported ep k [] ready
      → Single ready
      → length ready ≤ f
      → (w : World ep so handlers) × (process_events ep so handlers f ready (k, t) ≡ done w)
        × AllHandled n w.1
  process_events-AllHandled n f ready k t used v all r s l =
      let (p, all', pending) =
        polled ep so n k used ready [] [] none t v r s (all used v.partition)
          (λ j u. absurd (omega arith)) in
      let within = Reported-within ep so n k t used v ready r in
      let served = process_events-serve ep so handlers n f ready k t used v.partition within l in
      let (w, e, ready') =
        serve-Ready ep so handlers leave n (newest_first ready [])
          (k, (epoll_polling ready none t).1) (used, p, within, all', pending) in
      (
        w,
        served.0 ∙ ap (ended ep so handlers) e,
        λ us q j u.
            let same = Partition-unique n w.1.pool us ready'.0 q ready'.1 j in
            ready'.3 j (omega (arith, same, u)),
      )
