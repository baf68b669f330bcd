-- ===== src/MemPool/Overrun.antt =====
-- A defect of `add_mem_chunk` (src/mem_pool.c): the new block has room for the request or for the
-- old total, and not for the chunk header in front of the request.
use xpipe.Base.{
  ℕ, Ptr, null, ◌+◌, ◌≤◌, ◌<◌, ◌≡◌, ◌≢◌, refl, List, [], ◌∷◌, some, arith, word64, Bytes,
}
use xpipe.Heap.{Heap, malloc}
use xpipe.MemPool.{
  MemPool, chunk_size, chunk_offset, new_chunk, pool_size, max_size_of_chunk, alloc_small, pmalloc,
  mem_pool_create, bump_from, age_from, add_mem_chunk,
}

abbrev pub asked : List Ptr → Heap
asked answers = record { answers = answers; blocks = []; freed = [] }

abbrev pub created : Bytes → ℕ → Ptr → MemPool
created name n a = record {
  name = name;
  addr = a;
  total = n;
  max = n;
  current = 0;
  large = [];
  chunks = record { addr = a + chunk_offset; fail = 0; last = a + pool_size; end = a + n } ∷ [];
}

abbrev extended : Bytes → ℕ → Ptr → ℕ → Ptr → MemPool
extended name n a r b = record (created name n a) {
  total = n + n;
  chunks =
      record { addr = a + chunk_offset; fail = 1; last = a + pool_size; end = a + n }
      ∷ new_chunk b n r
      ∷ [];
}

module _ (name : Bytes) (n r : ℕ) (a b : Ptr) (rest : List Ptr) where
  created_lem :
      a ≢ null
      → n ≤ max_size_of_chunk
      → mem_pool_create name n (asked (a ∷ b ∷ rest))
        ≡ (some (created name n a), record { answers = b ∷ rest; blocks = (a, n) ∷ []; freed = [] })
  unfolding mem_pool_create malloc
  created_lem na hi = ground arith

  extended_lem :
      b ≢ null
      → pool_size ≤ n
      → a + n < word64
      → n < r + pool_size
      → r ≤ n
      → pmalloc r
          (created name n a)
          (record { answers = b ∷ rest; blocks = (a, n) ∷ []; freed = [] })
        ≡ some (
          b + chunk_size,
          extended name n a r b,
          record { answers = rest; blocks = (b, n) ∷ (a, n) ∷ []; freed = [] },
        )
  unfolding pmalloc alloc_small malloc bump_from age_from add_mem_chunk
  extended_lem nb lo wa big fit = ground arith

  -- In a fresh pool of `n` bytes, 88 to 4096, a request of at most `n` bytes that does not fit the
  -- first chunk and leaves less than a chunk header free of `n` is answered with memory that
  -- passes the end of the block of `n` bytes that `malloc` gave for it.
  pub pmalloc_overrun :
      (pool : MemPool) (h : Heap)
      → mem_pool_create name n (asked (a ∷ b ∷ rest)) ≡ (some pool, h)
      → a ≢ null
      → b ≢ null
      → pool_size ≤ n
      → n ≤ max_size_of_chunk
      → a + n < word64
      → n < r + chunk_size
      → r ≤ n
      → (pool' : MemPool) × (h' : Heap) × (pmalloc r pool h ≡ some (b + chunk_size, pool', h'))
        × (h'.blocks ≡ (b, n) ∷ (a, n) ∷ [])
        × (b + n < b + chunk_size + r)
  pmalloc_overrun pool h e na nb lo hi wa short fit =
      let made = created_lem na hi in
      let same_pool : pool ≡ created name n a = cc in
      let same_heap : h ≡ record { answers = b ∷ rest; blocks = (a, n) ∷ []; freed = [] } = cc in
      (
        extended name n a r b,
        record { answers = rest; blocks = (b, n) ∷ (a, n) ∷ []; freed = [] },
        rw (same_pool, same_heap) (extended_lem nb lo wa (omega arith) fit),
        refl,
        omega arith,
      )
