-- ===== src/Allocator.antt =====
-- What the clients of a pool use of it, and that the pools of src/mem_pool.c provide it.
use xpipe.Base.{
  ℕ, Ptr, null, ◌+◌, ◌≤◌, ◌≡◌, ◌≢◌, ◌∙◌, ◌⊎◌, inl, inr, Bool, true, false, Option, none, some,
}
use xpipe.Heap.{Heap}
use xpipe.MemPool.{MemPool, pmalloc, chunk_size}
use xpipe.MemPool.Extents.{within, used}
use xpipe.MemPool.Alloc.{IsSound, MallocFresh, pmalloc-Served, Allocates}

-- An allocator, the bytes that it has handed out, and when a request is served as it should be:
-- what is handed out is new, and what was handed out stays so.
pub record Allocator : Type 1 where
  pub Pool : Type 0
  pub alloc : ℕ → Pool → Ptr × Pool
  pub live : Pool → ℕ → Bool
  pub Sound : ℕ → Pool → Type 0
  pub fresh :
      (n : ℕ) (p : Pool)
      → Sound n p
      → (alloc n p).0 ≢ null
      → (a : ℕ) → within (alloc n p).0 n a ≡ true
      → live p a ≡ false
  pub keeps :
      (n : ℕ) (p : Pool) → Sound n p → (a : ℕ) → live p a ≡ true → live (alloc n p).1 a ≡ true

-- a pool with the heap that it takes its chunks from
abbrev pub Arena : Type 0
Arena = MemPool × Heap

or_null : Arena → Option (Ptr × MemPool × Heap) → Ptr × Arena
or_null a none = (null, a)
or_null a (some (p, pool, h)) = (p, (pool, h))

-- `pmalloc`; a pool whose `max` has room for a large header always returns
unfoldable pub arena_alloc : ℕ → Arena → Ptr × Arena
unfolding or_null
arena_alloc n a = or_null a (pmalloc n a.0 a.1)

abbrev pub ArenaSound : ℕ → Arena → Type 0
ArenaSound n (pool, h) =
    IsSound pool × (n ≤ pool.max) × (n + chunk_size ≤ pool.total) × MallocFresh pool.total pool h

served :
    (n : ℕ) (a : Arena)
    → ArenaSound n a
    → ((arena_alloc n a).0 ≡ null) × ((arena_alloc n a).1.0 ≡ a.0)
      ⊎ Allocates n a.0 (arena_alloc n a).0 (arena_alloc n a).1.0
unfolding arena_alloc
served n a s = let (r, e, k) = pmalloc-Served n a.0 a.1 s.0 s.1 s.2 s.3 in rw e k

pub arena_alloc-fresh :
    (n : ℕ) (p : Arena)
    → ArenaSound n p
    → (arena_alloc n p).0 ≢ null
    → (a : ℕ) → within (arena_alloc n p).0 n a ≡ true
    → used a p.0.chunks ≡ false
arena_alloc-fresh n p s nz a w = elim (served n p s) [
  | inl (e, k) ↦ absurd (nz e)
  | inr g ↦ g.fresh a w
]

pub arena_alloc-keeps :
    (n : ℕ) (p : Arena)
    → ArenaSound n p
    → (a : ℕ) → used a p.0.chunks ≡ true
    → used a (arena_alloc n p).1.0.chunks ≡ true
arena_alloc-keeps n p s a w = elim (served n p s) [ inl (e, k) ↦ rw k w | inr g ↦ g.grown a ∙ rw w ]

abbrev pub arena : Allocator
arena = record {
  Pool = Arena;
  alloc = arena_alloc;
  live = λ p a. used a p.0.chunks;
  Sound = ArenaSound;
  fresh = arena_alloc-fresh;
  keeps = arena_alloc-keeps;
}
