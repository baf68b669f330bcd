-- ===== src/MemPool.antt =====
-- src/mem_pool.c and src/mem_pool.h: a pool of chunks with bump allocation, and large blocks.
-- A pool's chunks stand in a list in the order of their `next` pointers, `current` is an index
-- into it, and pointers are numbers. What `malloc` answers is part of the heap's state.
pub mod Extents
pub mod Bump
pub mod Age
pub mod Alloc
pub mod LargeBlocks
pub mod Overrun
pub mod Release
use xpipe.Heap.{Heap, malloc, free}
use xpipe.Base.{
  ℕ, zero, suc, ◌+◌, ◌==◌, Bool, List, [], ◌∷◌, ◌++◌, Option, none, some, Bytes, Ptr, null, ltb,
  leb, sub64, if◌then◌else◌,
}

-- `mem_pool_chunk_t` at `addr`; its `next` is the chunk behind it in the list
pub record Chunk : Type 0 where
  pub addr : Ptr
  pub fail : ℕ
  pub last : Ptr
  pub end : Ptr

-- `mem_pool_large_t` at `header`
pub record Large : Type 0 where
  pub header : Ptr
  pub block : Ptr

pub record MemPool : Type 0 where
  pub name : Bytes
  pub addr : Ptr
  pub total : ℕ
  pub max : ℕ
  pub current : ℕ
  pub large : List Large
  pub chunks : List Chunk

-- sizeof(mem_pool_chunk_t), sizeof(mem_pool_large_t), sizeof(mem_pool_t), and the offset of
-- `chunk`, its last member
abbrev pub chunk_size : ℕ
chunk_size = 32

abbrev pub large_size : ℕ
large_size = 16

abbrev pub pool_size : ℕ
pool_size = 88

abbrev pub chunk_offset : ℕ
chunk_offset = 56

abbrev pub max_size_of_chunk : ℕ
max_size_of_chunk = 4096

abbrev first_chunk : Ptr → ℕ → Chunk
first_chunk a size = record {
  addr = a + chunk_offset;
  fail = 0;
  last = a + pool_size;
  end = a + size;
}

-- `mem_pool_create`
unfoldable pub mem_pool_create : Bytes → ℕ → Heap → Option MemPool × Heap
mem_pool_create name size h =
    let (a, h') = malloc size h in
    if a == null then (none, h') else (
      some (record {
        name = name;
        addr = a;
        total = size;
        max = if ltb size max_size_of_chunk then size else max_size_of_chunk;
        current = 0;
        large = [];
        chunks = first_chunk a size ∷ [];
      }),
      h',
    )

-- `(u_char *) chunk->end - p >= size`, a comparison of `size_t`s
abbrev pub fits : ℕ → Chunk → Bool
fits size c = leb size (sub64 c.end c.last)

-- the `do … while` of `pmalloc` over the chunks from some chunk on
unfoldable pub bump : ℕ → List Chunk → Option (Ptr × List Chunk)
bump size [] = none
bump size (c ∷ cs) =
    if fits size c
    then some (c.last, record c { last = c.last + size } ∷ cs)
    else elim (bump size cs) [ none ↦ none | some (p, cs') ↦ some (p, c ∷ cs') ]

-- the same from the chunk with the given index on
unfoldable pub bump_from : ℕ → ℕ → List Chunk → Option (Ptr × List Chunk)
unfolding bump
bump_from zero size cs = bump size cs
bump_from (suc i) size [] = none
bump_from (suc i) size (c ∷ cs) = elim (bump_from i size cs) [
  | none ↦ none
  | some (p, cs') ↦ some (p, c ∷ cs')
]

-- the `for` of `add_mem_chunk` over the chunks from index `i` on, and the last node's `fail++`:
-- the pool's `current` behind it, and the chunks
unfoldable pub age : ℕ → ℕ → List Chunk → ℕ × List Chunk
age i current [] = (current, [])
age i current (p ∷ []) = (current, record p { fail = p.fail + 1 } ∷ [])
age i current (p ∷ q ∷ cs) =
    let (current', cs') = age (i + 1) (if ltb 4 p.fail then i + 1 else current) (q ∷ cs) in
    (current', record p { fail = p.fail + 1 } ∷ cs')

unfoldable pub age_from : ℕ → ℕ → ℕ → List Chunk → ℕ × List Chunk
unfolding age
age_from zero i current cs = age i current cs
age_from (suc k) i current [] = (current, [])
age_from (suc k) i current (c ∷ cs) =
    let (current', cs') = age_from k (i + 1) current cs in (current', c ∷ cs')

abbrev pub new_chunk : Ptr → ℕ → ℕ → Chunk
new_chunk a alloc_size size = record {
  addr = a;
  fail = 0;
  last = a + chunk_size + size;
  end = a + alloc_size;
}

-- `add_mem_chunk`
unfoldable pub add_mem_chunk : ℕ → MemPool → Heap → Ptr × MemPool × Heap
add_mem_chunk size pool h =
    let alloc_size = if ltb pool.total size then size else pool.total in
    let (a, h') = malloc alloc_size h in
    let (current, chunks) = age_from pool.current 0 pool.current pool.chunks in
    if a == null then (null, pool, h') else (
      a + chunk_size,
      record pool {
        total = pool.total + alloc_size;
        current = current;
        chunks = chunks ++ new_chunk a alloc_size size ∷ [];
      },
      h',
    )

-- the small case of `pmalloc`
unfoldable pub alloc_small : ℕ → MemPool → Heap → Ptr × MemPool × Heap
alloc_small size pool h = elim (bump_from pool.current size pool.chunks) [
  | none ↦ add_mem_chunk size pool h
  | some (p, chunks) ↦ (p, record pool { chunks = chunks }, h)
]

-- The `for` of `alloc_large_mem`: the first empty node among the first five takes the block.
-- `n` counts the nodes looked at.
unfoldable pub reuse : ℕ → Ptr → List Large → Option (List Large)
reuse n p [] = none
reuse n p (l ∷ ls) =
    if l.block == null
    then some (record l { block = p } ∷ ls)
    else if ltb 3 n
    then none
    else elim (reuse (n + 1) p ls) [ none ↦ none | some ls' ↦ some (l ∷ ls') ]

-- the end of `alloc_large_mem`, with what `pmalloc` gave for the header
unfoldable pub link_large : Ptr → Ptr × MemPool × Heap → Ptr × MemPool × Heap
link_large p (header, pool, h) =
    if header == null
    then (null, pool, free p h)
    else (p, record pool { large = record { header = header; block = p } ∷ pool.large }, h)

-- `alloc_large_mem`; `rec` is the call of `pmalloc`, and `none` a call that does not return
unfoldable pub alloc_large_mem :
    (MemPool → Heap → Option (Ptr × MemPool × Heap))
    → ℕ
    → MemPool
    → Heap
    → Option (Ptr × MemPool × Heap)
unfolding link_large
alloc_large_mem rec size pool h =
    let (p, h') = malloc size h in
    let header = rec pool h' in
    if p == null then some (null, pool, h') else elim (reuse 0 p pool.large) [
      | some ls ↦ some (p, record pool { large = ls }, h')
      | none ↦ elim header [ none ↦ none | some r ↦ some (link_large p r) ]
    ]

-- `pmalloc`, at most `fuel` calls deep
unfoldable pub pmalloc_fuel : ℕ → ℕ → MemPool → Heap → Option (Ptr × MemPool × Heap)
unfolding alloc_large_mem
pmalloc_fuel zero size pool h = none
pmalloc_fuel (suc fuel) size pool h =
    let big = alloc_large_mem (pmalloc_fuel fuel large_size) size pool h in
    if leb size pool.max then some (alloc_small size pool h) else big

-- `pmalloc`: a header of a large block is small, so the second call is the last
unfoldable pub pmalloc : ℕ → MemPool → Heap → Option (Ptr × MemPool × Heap)
unfolding pmalloc_fuel
pmalloc = pmalloc_fuel 2

-- the loop of `pfree_large`
unfoldable pub free_block : Ptr → List Large → Option (List Large)
free_block p [] = none
free_block p (l ∷ ls) =
    if l.block == p
    then some (record l { block = null } ∷ ls)
    else elim (free_block p ls) [ none ↦ none | some ls' ↦ some (l ∷ ls') ]

-- `pfree_large`: true for XPE_OK
unfoldable pub pfree_large : Ptr → MemPool → Heap → Bool × MemPool × Heap
unfolding free_block
pfree_large p pool h = elim (free_block p pool.large) [
  | none ↦ (Bool.false, pool, h)
  | some ls ↦ (Bool.true, record pool { large = ls }, free p h)
]

-- the loop that releases the large list: what it frees is each node's header
unfoldable pub free_headers : List Large → Heap → Heap
free_headers [] h = h
free_headers (l ∷ ls) h = free_headers ls (free l.header h)

unfoldable pub free_chunks : List Chunk → Heap → Heap
free_chunks [] h = h
free_chunks (c ∷ cs) h = free_chunks cs (free c.addr h)

abbrev pub later_chunks : List Chunk → List Chunk
later_chunks [] = []
later_chunks (c ∷ cs) = cs

-- `mem_pool_destroy`
unfoldable pub mem_pool_destroy : MemPool → Heap → Heap
unfolding free_headers free_chunks
mem_pool_destroy pool h =
    free pool.addr (free_chunks (later_chunks pool.chunks) (free_headers pool.large h))

unfoldable pub reset_chunks : List Chunk → List Chunk
reset_chunks [] = []
reset_chunks (c ∷ cs) = record c { fail = 0; last = c.addr + chunk_size } ∷ reset_chunks cs

-- `mem_pool_clear`
unfoldable pub mem_pool_clear : MemPool → Heap → MemPool × Heap
unfolding free_headers reset_chunks
mem_pool_clear pool h = (
  record pool { current = 0; large = []; chunks = reset_chunks pool.chunks },
  free_headers pool.large h,
)
