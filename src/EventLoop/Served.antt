-- ===== src/EventLoop/Served.antt =====
-- A round of `process_events` (src/net/net_event.c) that calls no NULL.
use xpipe.Base.{
  ℕ, ◌<◌, ◌≡◌, ◌≢◌, inl, inr, refl, ap, subst, arith, false, Bool-cases, List, [], ◌∷◌, ◌++◌,
  Option, some, ◌==◌, count,
}
use xpipe.NetEvent.{Epoll}
use xpipe.NetEvent.Dispatch.{Dispatched, kept, closed, null_called, process_one}
use xpipe.NetEvent.Carried.{Carries, process_one-Carries}
use xpipe.TcpServer.Slots.{Partition, freed-Partition, count-append}
use xpipe.TcpServer.Accept.{Sockets}
use xpipe.EventLoop.{with_table, ClientHandlers, World, call, slot_done, process_slot}
use xpipe.EventLoop.Links.{split_at}
use xpipe.EventLoop.Walk.{serve}
use xpipe.EventLoop.Pass.{LeaveDescriptors}
use xpipe.EventLoop.Handled.{
  Handled-Midway, Midway-Handled, process_one-Handled, Settled, process_one-Settled,
}
use xpipe.EventLoop.Calm.{Ready, Calm, carried, call-active}

module _ (ep : Epoll) (so : Sockets ep) (handlers : ClientHandlers ep)
    (leave : LeaveDescriptors ep so handlers) where
  -- what a pass over the slot `i` may come to
  abbrev Passed : ℕ → ℕ → List ℕ → Dispatched (with_table ep) (call ep so handlers) → Type 0
  Passed n i js d =
      (next : Option ℕ) × (w : World ep so handlers) × (slot_done ep so handlers i d
        ≡ some (next, w))
      × Ready ep so handlers leave n js w

  passed :
      (n i : ℕ) (js : List ℕ) (d : Dispatched (with_table ep) (call ep so handlers))
      → Carries (with_table ep) (call ep so handlers) (Calm ep so handlers leave n i js) d
      → Settled (with_table ep) (call ep so handlers) d
      → d ≢ null_called
      → Passed n i js d
  unfolding slot_done
  passed n i js (kept c (k, t)) (used, p, within, others, pending, m) s some_call = (
    _,
    _,
    refl,
    (
      used,
      p,
      λ j. let w = within j in ground (arith, w),
      λ j u. elim (Bool-cases (j == i)) [
        | inl e ↦ rw e (Midway-Handled c s m)
        | inr e ↦ rw e (others j u e)
      ],
      λ j u.
          let w = within j in
          let once = p.2 j in
          let far : (j == i) ≡ false = ground (arith, w, once, u) in rw far (pending j u),
    ),
  )
  passed n i js (closed c (k, t)) (used, p, within, others, pending, m) s some_call =
      let here = within i in
      let (us, vs, e) = split_at i used (ground (arith, here)) in
      let p' : Partition n t.pool (us ++ i ∷ vs) = subst (Partition n t.pool) e p in
      (
        _,
        _,
        refl,
        (
          us ++ vs,
          freed-Partition n t.pool us i vs p',
          λ j.
              let w = within j in
              let total = ap (count j) e in
              omega (arith, w, total, count-append j us vs, count-append j us (i ∷ vs)),
          λ j u.
              let total = ap (count j) e in
              let once = p.2 j in
              let more = count-append j us vs in
              let all = count-append j us (i ∷ vs) in
              let far : (j == i) ≡ false = ground (arith, u, total, once, more, all) in
              let there : 0 < count j used = omega (arith, u, total, more, all) in
              rw far (others j there far),
          λ j u.
              let w = within j in
              let once = p.2 j in
              let far : (j == i) ≡ false = ground (arith, w, once, u) in rw far (pending j u),
        ),
      )
  passed n i js null_called b s some_call = absurd (some_call refl)

  process_slot-Passed :
      (n i : ℕ) (js : List ℕ) (w : World ep so handlers)
      → Ready ep so handlers leave n (i ∷ js) w
      → (next : Option ℕ) × (w' : World ep so handlers) × (process_slot ep so handlers i w
          ≡ some (next, w'))
        × Ready ep so handlers leave n js w'
  unfolding process_slot
  process_slot-Passed n i js w (used, p, within, all, pending) =
      let here = within i in
      let there : 0 < count i used = ground (arith, here) in
      let c = w.1.slots i in
      passed n i js (process_one (with_table ep) (call ep so handlers) c w)
        (process_one-Carries (with_table ep) (call ep so handlers)
          (Calm ep so handlers leave n i js) (carried ep so handlers leave n i js) c w
          (
            used,
            p,
            within,
            λ j u a. all j u,
            λ j u. pending j (ground (arith, u)),
            Handled-Midway c (all i there),
          ))
        (process_one-Settled (with_table ep) (call ep so handlers) c w)
        (process_one-Handled (with_table ep) (call ep so handlers)
          (call-active ep so handlers leave) c w (all i there) (pending i (ground arith)))

  -- all that were to be passed over are, and none called NULL
  pub serve-Ready :
      (n : ℕ) (js : List ℕ) (w : World ep so handlers)
      → Ready ep so handlers leave n js w
      → (w' : World ep so handlers) × (serve ep so handlers js w ≡ some w')
        × Ready ep so handlers leave n [] w'
  unfolding serve
  serve-Ready n [] w r = (w, refl, r)
  serve-Ready n (i ∷ js) w r =
      let (next, w', e, r') = process_slot-Passed n i js w r in
      rw (e, serve) (serve-Ready n js w' r')
