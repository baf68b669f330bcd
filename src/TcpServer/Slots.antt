-- ===== src/TcpServer/Slots.antt =====
-- No connection is handed out twice, and none is lost (src/net/tcp_server.c).
use xpipe.Base.{
  count, ◌∙◌, sym, ℕ, zero, suc, ◌+◌, ◌<◌, true, false, Option, none, some, List, [], ◌∷◌, ◌++◌,
  ◌≡◌, refl, arith, subst, ◌==◌, if◌then◌else◌, ltb,
}
use xpipe.TcpServer.ConnectionPool.{
  ConnectionPool, put, link, connection_pool_init, hand_out, tcp_get_connection,
  tcp_free_connection, relink,
}

-- what a run of the server has come to, and the slots that are handed out, after a start with `n`
-- slots
pub data Reached (n : ℕ) : ConnectionPool → List ℕ → Type 0 where
  started : (f g : ℕ → Option ℕ) → Reached n (connection_pool_init n f g) []
  got :
      {s : ConnectionPool} {used : List ℕ}
      → Reached n s used
      → (i fd : ℕ) → (tcp_get_connection true fd s).0 ≡ some i
      → Reached n (tcp_get_connection true fd s).1 (i ∷ used)
  freed :
      {s : ConnectionPool}
      → (us : List ℕ) (i : ℕ) (vs : List ℕ) → Reached n s (us ++ i ∷ vs)
      → Reached n (tcp_free_connection i s) (us ++ vs)
  linked :
      {s : ConnectionPool} {used : List ℕ}
      → Reached n s used
      → (i : ℕ) (v : Option ℕ) → 0 < count i used
      → Reached n (relink i v s) used

-- the list from `h` on
abbrev pub Chain : (ℕ → Option ℕ) → Option ℕ → List ℕ → Type 0
Chain next h [] = h ≡ none
Chain next h (i ∷ is) = (h ≡ some i) × Chain next (next i) is

-- each of the `n` slots is once in the pool's list or handed out, and not both
abbrev pub Partition : ℕ → ConnectionPool → List ℕ → Type 0
Partition n s used =
    (idle : List ℕ) × Chain s.next s.connection_pool idle
    × ((i : ℕ) → count i idle + count i used ≡ (if ltb i n then 1 else 0))

pub Chain-put :
    (i : ℕ) (v : Option ℕ) (next : ℕ → Option ℕ) (h : Option ℕ) (is : List ℕ)
    → count i is ≡ 0
    → Chain next h is
    → Chain (put i v next) h is
Chain-put i v next h [] z c = c
Chain-put i v next h (j ∷ js) z (e, c) =
    let apart : (j == i) ≡ false = ground arith in
    (e, rw apart (Chain-put i v next (next j) js (ground arith) c))

pub count-append : (i : ℕ) (us vs : List ℕ) → count i (us ++ vs) ≡ count i us + count i vs
count-append i [] vs = omega arith
count-append i (u ∷ us) vs = omega (arith, count-append i us vs)

link-Chain :
    (i : ℕ) (h : Option ℕ) (f : ℕ → Option ℕ) (js : List ℕ)
    → Chain f h js
    → ((j : ℕ) → j < i → count j js ≡ 0)
    → (is : List ℕ) × Chain (link i h f).1 (link i h f).0 is
      × ((j : ℕ) → count j is ≡ count j js + (if ltb j i then 1 else 0))
unfolding link
link-Chain zero h f js c z = (js, c, λ j. ground arith)
link-Chain (suc i) h f js c z =
    let here : put i h f i ≡ h = ground arith in
    let back : Chain (put i h f) (put i h f i) js =
      rw here (Chain-put i h f h js (z i (omega arith)) c) in
    let (is, d, k) =
      link-Chain i (some i) (put i h f) (i ∷ js) (refl, back)
        (λ j l. let none_yet = z j (omega arith) in ground arith) in
    (is, d, λ j. let now = k j in ground arith)

link-head : (i : ℕ) (h : Option ℕ) (f : ℕ → Option ℕ) → (link (suc i) h f).0 ≡ some 0
unfolding link
link-head zero h f = refl
link-head (suc i) h f = link-head i (some (suc i)) (put (suc i) h f)

pub init-Partition :
    (n : ℕ) (f g : ℕ → Option ℕ) → Partition (suc n) (connection_pool_init (suc n) f g) []
unfolding connection_pool_init
init-Partition n f g =
    let (is, c, k) = link-Chain (suc n) none f [] refl (λ j l. refl) in
    (
      is,
      subst (λ h. Chain (link (suc n) none f).1 h is) (link-head n none f) c,
      λ j. omega (arith, k j),
    )

pub got-Partition :
    (n : ℕ) (s : ConnectionPool) (used : List ℕ) (i fd : ℕ)
    → Partition n s used
    → (tcp_get_connection true fd s).0 ≡ some i
    → Partition n (tcp_get_connection true fd s).1 (i ∷ used)
unfolding tcp_get_connection hand_out
got-Partition n s used i fd p e = handed s.connection_pool p.0 p.1 p.2 e
  where
    handed :
        (h : Option ℕ) (is : List ℕ)
        → Chain s.next h is
        → ((j : ℕ) → count j is + count j used ≡ (if ltb j n then 1 else 0))
        → (hand_out h fd s).0 ≡ some i
        → Partition n (hand_out h fd s).1 (i ∷ used)
    handed none is c k e = cc
    handed (some x) [] c k e = cc
    handed (some x) (j ∷ js) (h, c) k e =
        let same : j ≡ i = cc in
        let me : x ≡ i = cc in
        let alone : count x js ≡ 0 = let all = k x in ground (arith, all, same, me) in
        let head : Chain s.next (s.next x) js =
          subst (λ t. Chain s.next (s.next t) js) (same ∙ sym me) c in
        (
          js,
          Chain-put x none s.next (s.next x) js alone head,
          λ y. let now = k y in ground (arith, now, same),
        )

pub freed-Partition :
    (n : ℕ) (s : ConnectionPool) (us : List ℕ) (i : ℕ) (vs : List ℕ)
    → Partition n s (us ++ i ∷ vs)
    → Partition n (tcp_free_connection i s) (us ++ vs)
unfolding tcp_free_connection
freed-Partition n s us i vs (is, c, k) =
    let here : put i s.connection_pool s.next i ≡ s.connection_pool = ground arith in
    let alone : count i is ≡ 0 = let all = k i in ground (arith, all, count-append i us (i ∷ vs)) in
    (
      i ∷ is,
      (refl, rw here (Chain-put i s.connection_pool s.next s.connection_pool is alone c)),
      λ j. omega (arith, k j, count-append j us (i ∷ vs), count-append j us vs),
    )

pub linked-Partition :
    (n : ℕ) (s : ConnectionPool) (used : List ℕ) (i : ℕ) (v : Option ℕ)
    → Partition n s used
    → 0 < count i used
    → Partition n (relink i v s) used
unfolding relink
linked-Partition n s used i v (is, c, k) p =
    let alone : count i is ≡ 0 = let all = k i in ground (arith, all) in
    (is, Chain-put i v s.next s.connection_pool is alone c, k)

-- Start with some slots, and let connections be handed out, given back, and linked into the list
-- of active ones in any order, as often as you like: then every slot is either once in the pool's
-- list or handed out once, and never both.
pub Reached-Partition :
    (n : ℕ) {s : ConnectionPool} {used : List ℕ} → Reached (suc n) s used → Partition (suc n) s used
Reached-Partition n (started f g) = init-Partition n f g
Reached-Partition n (got {s = s} {used = used} r i fd e) =
    got-Partition (suc n) s used i fd (Reached-Partition n r) e
Reached-Partition n (freed {s = s} us i vs r) =
    freed-Partition (suc n) s us i vs (Reached-Partition n r)
Reached-Partition n (linked {s = s} {used = used} r i v h) =
    linked-Partition (suc n) s used i v (Reached-Partition n r) h
