-- ===== src/EventLoop/Links.antt =====
-- The links of the connections that `process_events` walks along, and those of the pool
-- (src/net/net_event.c, src/net/net_epoll.c, src/net/tcp_server.c).
use xpipe.Base.{
  ℕ, ◌+◌, ◌<◌, ◌≤◌, ◌≡◌, inl, inr, refl, ap, subst, arith, Bool-cases, List, [], ◌∷◌, ◌++◌, Option,
  some, ◌==◌, count, length,
}
use xpipe.Connection.{Events, Connection}
use xpipe.TcpServer.ConnectionPool.{put, tcp_free_connection}
use xpipe.TcpServer.Slots.{
  count-append, Chain, Chain-put, Partition, freed-Partition, linked-Partition,
}
use xpipe.TcpServer.Accept.{Table, store, free_slot}
use xpipe.TcpServer.Owned.{SameSlots}
use xpipe.EventLoop.{poll_one, epoll_polling}

-- the slots of `js` are linked from `h` on, and stand among those that are handed out
abbrev pub Linked : ℕ → Option ℕ → List ℕ → Table → Type 0
Linked n h js t =
    (used : List ℕ) × Partition n t.pool used
    × ((j : ℕ) → count j js ≤ count j used)
    × Chain t.pool.next h js

-- the same of the slots behind `i`, which is handed out too
abbrev pub Behind : ℕ → ℕ → List ℕ → Table → Type 0
Behind n i js t =
    (used : List ℕ) × Partition n t.pool used
    × ((j : ℕ) → count j (i ∷ js) ≤ count j used)
    × Chain t.pool.next (t.pool.next i) js

Chain-kept :
    (used : List ℕ) (next next' : ℕ → Option ℕ) (h : Option ℕ) (js : List ℕ)
    → ((j : ℕ) → 0 < count j used → next' j ≡ next j)
    → ((j : ℕ) → count j js ≤ count j used)
    → Chain next h js
    → Chain next' h js
Chain-kept used next next' h [] same within c = c
Chain-kept used next next' h (j ∷ js) same within (e, c) =
    let here = within j in
    let rest =
      Chain-kept used next next' (next j) js same (λ g. let w = within g in ground (arith, w)) c in
    (e, rw (same j (ground (arith, here))) rest)

pub Behind-kept :
    (n i : ℕ) (js : List ℕ) (t t' : Table) (used more : List ℕ)
    → ((j : ℕ) → count j (i ∷ js) ≤ count j used)
    → Chain t.pool.next (t.pool.next i) js
    → SameSlots t t' used
    → Partition n t'.pool more
    → ((j : ℕ) → count j used ≤ count j more)
    → Behind n i js t'
Behind-kept n i js t t' used more within c same p grown =
    let here = within i in
    let link = (same i (ground (arith, here))).1 in
    (
      more,
      p,
      λ j. let w = within j in let g = grown j in omega (arith, w, g),
      rw link (
          Chain-kept used t.pool.next t'.pool.next (t.pool.next i) js (λ j u. (same j u).1)
            (λ j. let w = within j in ground (arith, w)) c),
    )

pub split_at :
    (i : ℕ) (used : List ℕ)
    → 0 < count i used
    → (us : List ℕ) × (vs : List ℕ) × (used ≡ us ++ i ∷ vs)
split_at i [] h = elim h [ ]
split_at i (u ∷ us) h = elim (Bool-cases (u == i)) [
  | inl e ↦ ([], us, ground (arith, e))
  | inr e ↦ let (xs, ys, k) = split_at i us (ground (arith, e, h)) in (u ∷ xs, ys, ap (◌∷◌ u) k)
]

-- behind the pass over `i`, which goes on or is given back
pub Behind-Linked :
    (n i : ℕ) (js : List ℕ) (c : Connection) (t : Table)
    → Behind n i js t
    → Linked n (t.pool.next i) js (store i c t)
Behind-Linked n i js c t (used, p, within, chain) =
    (used, p, λ j. let w = within j in ground (arith, w), chain)

pub Behind-free :
    (n i : ℕ) (js : List ℕ) (c : Connection) (t : Table)
    → Behind n i js t
    → Linked n (t.pool.next i) js (free_slot i (store i c t))
unfolding tcp_free_connection
Behind-free n i js c t (used, p, within, chain) =
    let here = within i in
    let (us, vs, e) = split_at i used (ground (arith, here)) in
    let p' : Partition n t.pool (us ++ i ∷ vs) = subst (Partition n t.pool) e p in
    let alone : count i js ≡ 0 =
      let (idle, d, k) = p in let all = k i in ground (arith, all, here) in
    (
      us ++ vs,
      freed-Partition n t.pool us i vs p',
      λ j.
          let w = within j in
          let total = ap (count j) e in
          omega (arith, w, total, count-append j us vs, count-append j us (i ∷ vs)),
      Chain-put i t.pool.connection_pool t.pool.next (t.pool.next i) js alone chain,
    )

-- the slots that were polled, the last one first
abbrev pub newest_first : List (ℕ × Events) → List ℕ → List ℕ
newest_first [] js = js
newest_first ((i, e) ∷ ready) js = newest_first ready (i ∷ js)

pub length-newest_first :
    (ready : List (ℕ × Events)) (js : List ℕ)
    → length (newest_first ready js) ≡ length ready + length js
length-newest_first [] js = omega arith
length-newest_first ((i, e) ∷ ready) js = omega (arith, length-newest_first ready (i ∷ js))

pub count-newest_first :
    (j : ℕ) (ready : List (ℕ × Events)) (js : List ℕ) → count j js ≤ count j (newest_first ready js)
count-newest_first j [] js = omega arith
count-newest_first j ((i, e) ∷ ready) js =
    let more = count-newest_first j ready (i ∷ js) in ground (arith, more)

-- what `epoll_polling` links
pub epoll_polling-Linked :
    (n : ℕ) (ready : List (ℕ × Events)) (h : Option ℕ) (js : List ℕ) (t : Table) (used : List ℕ)
    → Partition n t.pool used
    → ((j : ℕ) → count j (newest_first ready js) ≤ count j used)
    → Chain t.pool.next h js
    → Linked n (epoll_polling ready h t).0 (newest_first ready js) (epoll_polling ready h t).1
unfolding epoll_polling
epoll_polling-Linked n [] h js t used p within c = (used, p, within, c)
epoll_polling-Linked n ((i, e) ∷ ready) h js t used p within c =
    let there = count-newest_first i ready (i ∷ js) in
    let room = within i in
    let alone : count i js ≡ 0 =
      let (idle, d, k) = p in let all = k i in ground (arith, all, room, there) in
    let here : put i h t.pool.next i ≡ h = ground arith in
    epoll_polling-Linked n ready (some i) (i ∷ js) (poll_one i e h t) used
      (linked-Partition n t.pool used i h p (ground (arith, room, there))) within
      (refl, rw here (Chain-put i h t.pool.next h js alone c))
