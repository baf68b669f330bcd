-- ===== src/MemPool/Alloc.antt =====
-- `pmalloc` and `add_mem_chunk` (src/mem_pool.c): every answer is new memory inside the pool.
use xpipe.Base.{
  ℕ, Ptr, null, suc, ◌+◌, ◌≤◌, ◌<◌, ◌≡◌, ◌≢◌, ap, ◌∙◌, refl, ◌⊎◌, inl, inr, true, false, ◌||◌, List,
  [], ◌∷◌, ◌++◌, some, arith, length, length-append, Bool-cases, ltb, word64, Option-cases, ◌==◌,
}
use xpipe.Heap.{Heap, malloc}
use xpipe.MemPool.{
  MemPool, Chunk, chunk_size, new_chunk, bump_from, add_mem_chunk, alloc_small, pmalloc,
}
use xpipe.MemPool.Extents.{
  All, All-append, within, FitsIn, Off, Apart, covers, used, used-append, covers-SameExtents,
  SameExtents, Apart-SameExtents, Off-SameExtents, used-covers, not-covers-Off,
}
use xpipe.MemPool.Bump.{Bumped, bump_from-Bumped}
use xpipe.MemPool.Age.{Aged, age_from-Aged}

-- The chunks are well formed and disjoint, and `current` is one of them.
pub record IsSound (pool : MemPool) : Type 0 where
  pub valid : All FitsIn pool.chunks
  pub apart : Apart pool.chunks
  pub current_in : pool.current < length pool.chunks

-- The next block of `n` bytes from `malloc`, if it comes, overlaps no chunk of the pool and
-- does not pass the end of the address space.
abbrev pub MallocFresh : ℕ → MemPool → Heap → Type 0
MallocFresh n pool h =
    (malloc n h).0 ≢ null
    → All (Off (malloc n h).0 ((malloc n h).0 + n)) pool.chunks × ((malloc n h).0 + n < word64)

-- `pool'` is `pool` with `size` more bytes in use, those at `p`.
pub record Allocates (size : ℕ) (pool : MemPool) (p : Ptr) (pool' : MemPool) : Type 0 where
  pub sound : IsSound pool'
  pub nonzero : p ≢ null
  pub inside : (a : ℕ) → within p size a ≡ true → covers a pool'.chunks ≡ true
  pub fresh : (a : ℕ) → within p size a ≡ true → used a pool.chunks ≡ false
  pub grown : (a : ℕ) → used a pool'.chunks ≡ (used a pool.chunks || within p size a)

-- what a call that returns may do: fail and change nothing, or allocate
abbrev pub Served : ℕ → MemPool → Ptr × MemPool × Heap → Type 0
Served size pool (p, pool', h') = ((p ≡ null) × (pool' ≡ pool)) ⊎ Allocates size pool p pool'

Off-sym :
    (lo hi : ℕ) (cs : List Chunk) (d : Chunk)
    → d.addr ≡ lo
    → d.end ≡ hi
    → All (Off lo hi) cs
    → Apart cs
    → Apart (cs ++ d ∷ [])
Off-sym lo hi [] d e k o h = (tt, tt)
Off-sym lo hi (c ∷ cs) d e k o h = (
  All-append (Off c.addr c.end) cs (d ∷ []) h.0 (ground arith, tt),
  Off-sym lo hi cs d e k o.1 h.1,
)

covers-append : (a : ℕ) (cs ds : List Chunk) → covers a (cs ++ ds) ≡ (covers a cs || covers a ds)
unfolding covers
covers-append a [] ds = refl
covers-append a (c ∷ cs) ds = ground (arith, covers-append a cs ds)

abbrev SameLength : List Chunk → List Chunk → Type 0
SameLength cs ds = length ds ≡ length cs

length-SameExtents : (cs ds : List Chunk) → SameExtents cs ds → SameLength cs ds
length-SameExtents [] [] s = refl
length-SameExtents [] (d ∷ ds) s = absurd s
length-SameExtents (c ∷ cs) [] s = absurd s
length-SameExtents (c ∷ cs) (d ∷ ds) s = ap suc (length-SameExtents cs ds s.2)

module _ (size : ℕ) (pool : MemPool) (s : IsSound pool)
    (room : size + chunk_size ≤ pool.total) where
  append-Allocates :
      (a n : ℕ) (t : ℕ) (aged : ℕ × List Chunk)
      → Aged pool.chunks (length pool.chunks) aged
      → a ≢ null
      → All (Off a (a + n)) pool.chunks
      → a + n < word64
      → size + chunk_size ≤ n
      → Allocates size pool
          (a + chunk_size)
          (record pool { total = t; current = aged.0; chunks = aged.1 ++ new_chunk a n size ∷ [] })
  unfolding used covers
  append-Allocates a n t aged g nz off top fit = record {
    sound = record {
      valid = All-append FitsIn aged.1 _ (g.valid s.valid) (omega arith, tt);
      apart =
          Off-sym a (a + n) aged.1 (new_chunk a n size) refl refl
            (Off-SameExtents a (a + n) _ _ g.extents off) (Apart-SameExtents _ _ g.extents s.apart);
      current_in =
          omega
            (arith, g.current_in, g.same_length, length-append aged.1 (new_chunk a n size ∷ []));
    };
    nonzero = omega arith;
    inside = λ b w. ground (arith, covers-append b aged.1 (new_chunk a n size ∷ []));
    fresh = λ b w.
        ground
          (arith, not-covers-Off b a (a + n) pool.chunks off, used-covers b pool.chunks s.valid);
    grown = λ b. ground (arith, g.same b, used-append b aged.1 (new_chunk a n size ∷ []));
  }

  add_mem_chunk-Served :
      (h : Heap) → MallocFresh pool.total pool h → Served size pool (add_mem_chunk size pool h)
  unfolding add_mem_chunk
  add_mem_chunk-Served h fresh =
      let no_larger : ltb pool.total size ≡ false = ground arith in
      let a = (malloc pool.total h).0 in
      let aged = age_from-Aged pool.current 0 pool.current pool.chunks s.current_in (omega arith) in
      rw no_larger (elim (Bool-cases (a == null)) [
        | inl e ↦ rw e (inl (refl, refl))
        | inr e ↦
            let got : a ≢ null = ground arith in
            rw e (inr (append-Allocates a pool.total _ _ aged got (fresh got).0 (fresh got).1 room))
      ])

  bump-Allocates :
      {p : Ptr} {cs : List Chunk}
      → Bumped size pool.chunks p cs
      → SameLength pool.chunks cs
      → Allocates size pool p (record pool { chunks = cs })
  bump-Allocates {cs} b l = record {
    sound = record {
      valid = b.valid;
      apart = Apart-SameExtents _ _ b.extents s.apart;
      current_in = omega (arith, s.current_in);
    };
    nonzero = λ e. omega (arith, b.nonzero);
    inside = λ a w. covers-SameExtents a _ _ b.extents ∙ b.covered a w;
    fresh = b.fresh;
    grown = b.grown;
  }

  -- A request that fits one block besides its header is served with new memory inside the pool,
  -- or `malloc` has failed and nothing has changed.
  pub alloc_small-Served :
      (h : Heap) → MallocFresh pool.total pool h → Served size pool (alloc_small size pool h)
  unfolding alloc_small
  alloc_small-Served h fresh = elim (Option-cases (bump_from pool.current size pool.chunks)) [
    | inl e ↦ rw (e, alloc_small) (add_mem_chunk-Served h fresh)
    | inr ((p, cs), e) ↦
        let b = rw e at (bump_from-Bumped pool.current size pool.chunks s.valid s.apart) in
        rw (e, alloc_small) (inr (bump-Allocates b (length-SameExtents _ _ b.extents)))
  ]

pub pmalloc-alloc_small :
    (size : ℕ) (pool : MemPool) (h : Heap)
    → size ≤ pool.max
    → pmalloc size pool h ≡ some (alloc_small size pool h)
unfolding pmalloc
pmalloc-alloc_small size pool h k = ground arith

-- A `pmalloc` of at most `max` bytes from a sound pool whose `total` leaves room for a chunk
-- header returns. Either it returns NULL and leaves the pool as it was, or the bytes from the
-- answer on were not in use, lie in a chunk, and are now in use, as exactly those before are.
-- The pool stays sound.
pub pmalloc-Served :
    (size : ℕ) (pool : MemPool) (h : Heap)
    → IsSound pool
    → size ≤ pool.max
    → size + chunk_size ≤ pool.total
    → MallocFresh pool.total pool h
    → (r : Ptr × MemPool × Heap) × (pmalloc size pool h ≡ some r) × Served size pool r
pmalloc-Served size pool h s small room fresh = (
  alloc_small size pool h,
  pmalloc-alloc_small size pool h small,
  alloc_small-Served size pool s room h fresh,
)
