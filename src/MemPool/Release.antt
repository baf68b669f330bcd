-- ===== src/MemPool/Release.antt =====
-- `mem_pool_create`, `mem_pool_clear` and `mem_pool_destroy` (src/mem_pool.c).
use xpipe.Base.{
  ℕ, Ptr, null, suc, ◌+◌, ◌≤◌, ◌<◌, ◌≡◌, refl, ap, inl, inr, false, List, [], ◌∷◌, Option, none,
  some, arith, Bool-cases, ◌==◌, word64, Bytes, length, if◌then◌else◌,
}
use xpipe.Heap.{Heap, malloc, free}
use xpipe.MemPool.{
  MemPool, Chunk, Large, pool_size, mem_pool_create, mem_pool_clear, mem_pool_destroy, reset_chunks,
  free_headers, free_chunks, later_chunks,
}
use xpipe.MemPool.Extents.{All, FitsIn, used, SameExtents, Apart-SameExtents}
use xpipe.MemPool.Alloc.{IsSound}

abbrev pub CreateOutcome : ℕ → Heap → Option MemPool × Heap → Type 0
CreateOutcome n h (none, h') = (malloc n h).0 ≡ null
CreateOutcome n h (some pool, h') =
    IsSound pool × (pool.total ≡ n) × ((a : ℕ) → used a pool.chunks ≡ false)

-- A pool of at least 88 bytes is created sound and with no byte in use, unless `malloc` fails.
pub mem_pool_create-IsSound :
    (name : Bytes) (n : ℕ) (h : Heap)
    → pool_size ≤ n
    → (malloc n h).0 + n < word64
    → CreateOutcome n h (mem_pool_create name n h)
unfolding mem_pool_create used
mem_pool_create-IsSound name n h lo hi = elim (Bool-cases ((malloc n h).0 == null)) [
  | inl e ↦ rw e (ground arith)
  | inr e ↦ rw e (
    record { valid = (omega arith, tt); apart = (tt, tt); current_in = omega arith },
    refl,
    λ a. ground arith,
  )
]

reset_chunks-FitsIn : (cs : List Chunk) → All FitsIn cs → All FitsIn (reset_chunks cs)
unfolding reset_chunks
reset_chunks-FitsIn [] f = tt
reset_chunks-FitsIn (c ∷ cs) f = (omega arith, reset_chunks-FitsIn cs f.1)

reset_chunks-SameExtents : (cs : List Chunk) → SameExtents cs (reset_chunks cs)
unfolding reset_chunks
reset_chunks-SameExtents [] = tt
reset_chunks-SameExtents (c ∷ cs) = (refl, refl, reset_chunks-SameExtents cs)

used-reset_chunks : (a : ℕ) (cs : List Chunk) → used a (reset_chunks cs) ≡ false
unfolding used reset_chunks
used-reset_chunks a [] = refl
used-reset_chunks a (c ∷ cs) = ground (arith, used-reset_chunks a cs)

length-reset_chunks : (cs : List Chunk) → length (reset_chunks cs) ≡ length cs
unfolding reset_chunks
length-reset_chunks [] = refl
length-reset_chunks (c ∷ cs) = ap suc (length-reset_chunks cs)

-- `mem_pool_clear` keeps the pool sound and keeps its chunks, with no byte of them in use.
pub mem_pool_clear-IsSound :
    (pool : MemPool) (h : Heap)
    → IsSound pool
    → IsSound (mem_pool_clear pool h).0
      × SameExtents pool.chunks (mem_pool_clear pool h).0.chunks
      × ((a : ℕ) → used a (mem_pool_clear pool h).0.chunks ≡ false)
unfolding mem_pool_clear
mem_pool_clear-IsSound pool h s = (
  record {
    valid = reset_chunks-FitsIn pool.chunks s.valid;
    apart = Apart-SameExtents _ _ (reset_chunks-SameExtents pool.chunks) s.apart;
    current_in = omega (arith, s.current_in, length-reset_chunks pool.chunks);
  },
  reset_chunks-SameExtents pool.chunks,
  λ a. used-reset_chunks a pool.chunks,
)

-- how often `p` stands in a list of pointers, of headers, of chunks
unfoldable pub occurs : Ptr → List Ptr → ℕ
occurs p [] = 0
occurs p (x ∷ xs) = (if x == p then 1 else 0) + occurs p xs

unfoldable pub occurs_header : Ptr → List Large → ℕ
occurs_header p [] = 0
occurs_header p (l ∷ ls) = (if l.header == p then 1 else 0) + occurs_header p ls

unfoldable pub occurs_chunk : Ptr → List Chunk → ℕ
occurs_chunk p [] = 0
occurs_chunk p (c ∷ cs) = (if c.addr == p then 1 else 0) + occurs_chunk p cs

occurs-free_headers :
    (p : Ptr) (ls : List Large) (h : Heap)
    → occurs p (free_headers ls h).freed ≡ occurs p h.freed + occurs_header p ls
unfolding free_headers occurs occurs_header
occurs-free_headers p [] h = omega arith
occurs-free_headers p (l ∷ ls) h = omega (arith, occurs-free_headers p ls (free l.header h))

occurs-free_chunks :
    (p : Ptr) (cs : List Chunk) (h : Heap)
    → occurs p (free_chunks cs h).freed ≡ occurs p h.freed + occurs_chunk p cs
unfolding free_chunks occurs occurs_chunk
occurs-free_chunks p [] h = omega arith
occurs-free_chunks p (c ∷ cs) h = omega (arith, occurs-free_chunks p cs (free c.addr h))

-- `mem_pool_destroy` frees the pool, each later chunk and each header of the large list once, and
-- no other pointer: not the blocks of the large list.
pub mem_pool_destroy_lem :
    (p : Ptr) (pool : MemPool) (h : Heap)
    → occurs p (mem_pool_destroy pool h).freed
      ≡ occurs p h.freed
        + occurs_header p pool.large
        + occurs_chunk p (later_chunks pool.chunks)
        + (if pool.addr == p then 1 else 0)
unfolding mem_pool_destroy occurs
mem_pool_destroy_lem p pool h = omega (
  arith,
  occurs-free_chunks p (later_chunks pool.chunks) (free_headers pool.large h),
  occurs-free_headers p pool.large h,
)
