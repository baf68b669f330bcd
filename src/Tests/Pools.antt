-- ===== src/Tests/Pools.antt =====
-- Pools of src/mem_pool.c and arrays of src/dynamic_array.c at concrete sizes and addresses.
use xpipe.Base.{ℕ, ◌<◌, [], ◌∷◌, ◌≡◌, refl, arith, true, false, some, Ptr}
use xpipe.Heap.{Heap, malloc}
use xpipe.Memory.{Mem}
use xpipe.MemPool.{
  MemPool, pmalloc, pfree_large, mem_pool_create, mem_pool_clear, mem_pool_destroy, reuse,
  alloc_small, bump_from,
}
use xpipe.MemPool.Extents.{used, SameExtents}
use xpipe.MemPool.Alloc.{IsSound, Served, pmalloc-Served}
use xpipe.MemPool.LargeBlocks.{LargeServed, pmalloc-LargeServed, pfree_large-pmalloc}
use xpipe.MemPool.Overrun.{asked, created, pmalloc_overrun}
use xpipe.MemPool.Release.{
  mem_pool_clear-IsSound, mem_pool_destroy_lem, occurs, occurs_header, occurs_chunk,
}
use xpipe.DynamicArray.{DynamicArray}
use xpipe.Tests.Inputs.{codes}

-- a pool of 1000 bytes at 5000, and a heap with two blocks to give
abbrev pool : MemPool
pool = created (codes "pool") 1000 5000

abbrev heap : Heap
heap = asked (8000 ∷ 9000 ∷ [])

pool-IsSound : IsSound pool
pool-IsSound = record { valid = (omega arith, tt); apart = (tt, tt); current_in = omega arith }

pmalloc-Served_example :
    (r : Ptr × MemPool × Heap) × (pmalloc 300 pool heap ≡ some r) × Served 300 pool r
unfolding malloc
pmalloc-Served_example =
    pmalloc-Served 300 pool heap pool-IsSound (omega arith) (omega arith) (λ n. ground arith)

pmalloc-LargeServed_example :
    (r : Ptr × MemPool × Heap) × (pmalloc 2000 pool heap ≡ some r) × LargeServed 2000 heap r
pmalloc-LargeServed_example = pmalloc-LargeServed 2000 pool heap (omega arith) (omega arith)

-- the pool and the heap behind a large block, at 8000
abbrev served : MemPool
served = record pool {
  large = record { header = 5088; block = 8000 } ∷ [];
  chunks = record { addr = 5056; fail = 0; last = 5104; end = 6000 } ∷ [];
}

abbrev left : Heap
left = record { answers = 9000 ∷ []; blocks = (8000, 2000) ∷ []; freed = [] }

pfree_large-pmalloc_example :
    ((pfree_large 8000 served left).0 ≡ true) × ((pfree_large 8000 served left).2.freed ≡ 8000 ∷ [])
unfolding pmalloc malloc reuse alloc_small bump_from
pfree_large-pmalloc_example =
    pfree_large-pmalloc 2000 pool heap 8000 served left (omega arith) (omega arith) refl (λ e. cc)

pmalloc_overrun_example :
    (pool' : MemPool) × (h' : Heap) × (pmalloc 990 pool
        (record { answers = 8000 ∷ []; blocks = (5000, 1000) ∷ []; freed = [] })
      ≡ some (8032, pool', h'))
    × (h'.blocks ≡ (8000, 1000) ∷ (5000, 1000) ∷ [])
    × (9000 < 9022)
unfolding mem_pool_create malloc
pmalloc_overrun_example =
    pmalloc_overrun (codes "pool") 1000 990 5000 8000 [] pool
      (record { answers = 8000 ∷ []; blocks = (5000, 1000) ∷ []; freed = [] }) refl (λ e. cc)
      (λ e. cc) (omega arith) (omega arith) (omega arith) (omega arith) (omega arith)

mem_pool_clear-IsSound_example :
    IsSound (mem_pool_clear pool heap).0
    × SameExtents pool.chunks (mem_pool_clear pool heap).0.chunks
    × ((a : ℕ) → used a (mem_pool_clear pool heap).0.chunks ≡ false)
mem_pool_clear-IsSound_example = mem_pool_clear-IsSound pool heap pool-IsSound

-- the large block at 8000 is not freed
mem_pool_destroy_lem_example : occurs 8000 (mem_pool_destroy served left).freed ≡ 0
unfolding occurs occurs_header occurs_chunk
mem_pool_destroy_lem_example = mem_pool_destroy_lem 8000 served left

-- an array of two elements of 4 bytes, full
abbrev full : DynamicArray
full = record { elts = 10; size = 4; nelts = 2; nalloc = 2 }

-- memory that holds its own addresses
abbrev identity : Mem
identity a = a
