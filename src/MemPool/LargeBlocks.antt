-- ===== src/MemPool/LargeBlocks.antt =====
-- `alloc_large_mem` and `pfree_large` (src/mem_pool.c).
use xpipe.Base.{
  ℕ, Ptr, null, ◌+◌, ◌≤◌, ◌<◌, ◌≡◌, ◌≢◌, refl, ◌⊎◌, inl, inr, Bool, true, false, ◌||◌, List, [],
  ◌∷◌, ◌∙◌, subst, if◌then◌else◌, none, some, arith, Bool-cases, Option-cases, ◌==◌,
}
use xpipe.Heap.{Heap, malloc}
use xpipe.MemPool.{
  MemPool, Large, large_size, alloc_small, reuse, link_large, pmalloc, free_block, pfree_large,
}

-- some node of the list has block `p`
unfoldable pub holds : Ptr → List Large → Bool
holds p [] = false
holds p (l ∷ ls) = l.block == p || holds p ls

-- A call for more than `max` bytes fails, or its block is one that `malloc` gave for it, and the
-- pool's large list has the block.
abbrev pub LargeServed : ℕ → Heap → Ptr × MemPool × Heap → Type 0
LargeServed size h (p, pool, h') =
    (p ≡ null) ⊎ ((p ≡ (malloc size h).0) × (p ≢ null) × (holds p pool.large ≡ true))

reuse-holds : (n : ℕ) (p : Ptr) (ls ls' : List Large) → reuse n p ls ≡ some ls' → holds p ls' ≡ true
unfolding reuse holds
reuse-holds n p [] ls' e = cc
reuse-holds n p (l ∷ ls) ls' e = elim (Option-cases (reuse (n + 1) p ls)) [
  | inl r ↦ ground arith
  | inr (rest, r) ↦ ground (arith, reuse-holds (n + 1) p ls rest)
]

link_large-LargeServed :
    (size : ℕ) (h : Heap) (r : Ptr × MemPool × Heap)
    → (malloc size h).0 ≢ null
    → LargeServed size h (link_large (malloc size h).0 r)
unfolding link_large holds
link_large-LargeServed size h (p, pool, h') e = ground arith

-- A `pmalloc` of more than `max` bytes returns, when `max` has room for a large header. It
-- returns NULL, or a block that `malloc` gave for just this size and that is in the large list.
pub pmalloc-LargeServed :
    (size : ℕ) (pool : MemPool) (h : Heap)
    → pool.max < size
    → large_size ≤ pool.max
    → (r : Ptr × MemPool × Heap) × (pmalloc size pool h ≡ some r) × LargeServed size h r
unfolding pmalloc
pmalloc-LargeServed size pool h big room = elim (Bool-cases ((malloc size h).0 == null)) [
  | inl e ↦ ((null, pool, (malloc size h).1), ground arith, inl refl)
  | inr e ↦ elim (Option-cases (reuse 0 (malloc size h).0 pool.large)) [
    | inr (ls, r) ↦ (
      ((malloc size h).0, record pool { large = ls }, (malloc size h).1),
      ground arith,
      inr (refl, ground arith, reuse-holds 0 _ pool.large ls r),
    )
    | inl r ↦ (
      link_large (malloc size h).0 (alloc_small large_size pool (malloc size h).1),
      ground arith,
      link_large-LargeServed size h (alloc_small large_size pool (malloc size h).1) (ground arith),
    )
  ]
]

free_block-holds :
    (p : Ptr) (ls : List Large)
    → holds p ls ≡ true
    → (ls' : List Large) × (free_block p ls ≡ some ls')
unfolding free_block holds
free_block-holds p [] h = cc
free_block-holds p (l ∷ ls) h = elim (Bool-cases (l.block == p)) [
  | inl e ↦ (record l { block = null } ∷ ls, rw e)
  | inr e ↦ let (ls', k) = free_block-holds p ls (rw e at h) in (l ∷ ls', rw (e, k))
]

free_block-none : (p : Ptr) (ls : List Large) → holds p ls ≡ false → free_block p ls ≡ none
unfolding free_block holds
free_block-none p [] h = refl
free_block-none p (l ∷ ls) h = ground (arith, free_block-none p ls)

-- `pfree_large` answers XPE_OK exactly for a block of the large list. Then it frees that block
-- and nothing else, otherwise nothing; the chunks stay as they are in both cases.
pub pfree_large_lem :
    (p : Ptr) (pool : MemPool) (h : Heap)
    → ((pfree_large p pool h).0 ≡ holds p pool.large)
      × ((pfree_large p pool h).2.freed ≡ (if holds p pool.large then p ∷ h.freed else h.freed))
      × ((pfree_large p pool h).1.chunks ≡ pool.chunks)
unfolding pfree_large
pfree_large_lem p pool h = elim (Bool-cases (holds p pool.large)) [
  | inl e ↦
      let (ls, k) = free_block-holds p pool.large e in rw (e, k, pfree_large) (refl, refl, refl)
  | inr e ↦ rw (e, free_block-none p pool.large e, pfree_large) (refl, refl, refl)
]

-- What `pmalloc` served as a large block `pfree_large` takes back.
pub pfree_large-pmalloc :
    (size : ℕ) (pool : MemPool) (h : Heap) (p : Ptr) (pool' : MemPool) (h' : Heap)
    → pool.max < size
    → large_size ≤ pool.max
    → pmalloc size pool h ≡ some (p, pool', h')
    → p ≢ null
    → ((pfree_large p pool' h').0 ≡ true) × ((pfree_large p pool' h').2.freed ≡ p ∷ h'.freed)
pfree_large-pmalloc size pool h p pool' h' big room e nz =
    let (r, k, served) = pmalloc-LargeServed size pool h big room in
    let same : r ≡ (p, pool', h') = cc in
    let held = subst (LargeServed size h) same served in
    let known : holds p pool'.large ≡ true = ground arith in
    let spec = pfree_large_lem p pool' h' in (spec.0 ∙ known, spec.1 ∙ rw known)
