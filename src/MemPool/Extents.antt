-- ===== src/MemPool/Extents.antt =====
-- What the chunks of a pool (src/mem_pool.h) occupy, and which of their bytes are in use.
use xpipe.Base.{
  ℕ, Ptr, ◌+◌, ◌≤◌, ◌<◌, ◌≡◌, refl, sym, ◌⊎◌, Bool, false, ◌&&◌, ◌||◌, List, [], ◌∷◌, ◌++◌, arith,
  ltb, leb, word64,
}
use mathlib.Core.Path.{subst₂}
use xpipe.MemPool.{Chunk, chunk_size}

abbrev pub All {ℓ κ} : {A : Type ℓ} → (A → Type κ) → List A → Type κ
All P [] = Unit
All P (x ∷ xs) = P x × All P xs

pub All-append {ℓ κ} :
    {A : Type ℓ} (P : A → Type κ) (xs ys : List A) → All P xs → All P ys → All P (xs ++ ys)
All-append P [] ys h k = k
All-append P (x ∷ xs) ys h k = (h.0, All-append P xs ys h.1 k)

abbrev pub within : Ptr → ℕ → ℕ → Bool
within p size a = leb p a && ltb a (p + size)

-- A chunk's header lies in front of `last`, and `last` does not pass `end`.
abbrev pub FitsIn : Chunk → Type 0
FitsIn c = (c.addr + chunk_size ≤ c.last) × (c.last ≤ c.end) × (c.end < word64)

-- the chunk's bytes and the bytes from `lo` up to `hi` are disjoint
abbrev pub Off : Ptr → Ptr → Chunk → Type 0
Off lo hi c = (hi ≤ c.addr) ⊎ (c.end ≤ lo)

-- no two chunks overlap
abbrev pub Apart : List Chunk → Type 0
Apart [] = Unit
Apart (c ∷ cs) = All (Off c.addr c.end) cs × Apart cs

-- some chunk holds byte `a`
unfoldable pub covers : ℕ → List Chunk → Bool
covers a [] = false
covers a (c ∷ cs) = (leb c.addr a && ltb a c.end) || covers a cs

-- byte `a` was handed out: it lies between a chunk's header and its `last`
unfoldable pub used : ℕ → List Chunk → Bool
used a [] = false
used a (c ∷ cs) = (leb (c.addr + chunk_size) a && ltb a c.last) || used a cs

-- the same chunks, at the same places
abbrev pub SameExtents : List Chunk → List Chunk → Type 0
SameExtents [] [] = Unit
SameExtents (c ∷ cs) (d ∷ ds) = (d.addr ≡ c.addr) × (d.end ≡ c.end) × SameExtents cs ds
SameExtents _ _ = ⊥

pub SameExtents-refl : (cs : List Chunk) → SameExtents cs cs
SameExtents-refl [] = tt
SameExtents-refl (c ∷ cs) = (refl, refl, SameExtents-refl cs)

pub not-covers-Off :
    (a lo hi : ℕ) (cs : List Chunk) → All (Off lo hi) cs → lo ≤ a → a < hi → covers a cs ≡ false
unfolding covers
not-covers-Off a lo hi [] o h k = refl
not-covers-Off a lo hi (c ∷ cs) o h k = ground (arith, not-covers-Off a lo hi cs)

-- only covered bytes are in use
pub used-covers :
    (a : ℕ) (cs : List Chunk) → All FitsIn cs → covers a cs ≡ false → used a cs ≡ false
unfolding covers used
used-covers a [] f h = refl
used-covers a (c ∷ cs) f h = ground (arith, used-covers a cs)

pub used-append : (a : ℕ) (cs ds : List Chunk) → used a (cs ++ ds) ≡ (used a cs || used a ds)
unfolding used
used-append a [] ds = refl
used-append a (c ∷ cs) ds = ground (arith, used-append a cs ds)

pub covers-SameExtents :
    (a : ℕ) (cs ds : List Chunk) → SameExtents cs ds → covers a ds ≡ covers a cs
unfolding covers
covers-SameExtents a [] [] s = refl
covers-SameExtents a [] (d ∷ ds) s = absurd s
covers-SameExtents a (c ∷ cs) [] s = absurd s
covers-SameExtents a (c ∷ cs) (d ∷ ds) s = ground (arith, covers-SameExtents a cs ds)

pub Off-SameExtents :
    (lo hi : ℕ) (cs ds : List Chunk) → SameExtents cs ds → All (Off lo hi) cs → All (Off lo hi) ds
Off-SameExtents lo hi [] [] s o = tt
Off-SameExtents lo hi [] (d ∷ ds) s o = absurd s
Off-SameExtents lo hi (c ∷ cs) [] s o = absurd s
Off-SameExtents lo hi (c ∷ cs) (d ∷ ds) s o = (ground arith, Off-SameExtents lo hi cs ds s.2 o.1)

pub Apart-SameExtents : (cs ds : List Chunk) → SameExtents cs ds → Apart cs → Apart ds
Apart-SameExtents [] [] s o = tt
Apart-SameExtents [] (d ∷ ds) s o = absurd s
Apart-SameExtents (c ∷ cs) [] s o = absurd s
Apart-SameExtents (c ∷ cs) (d ∷ ds) s o = (
  subst₂ (λ lo hi. All (Off lo hi) ds) (sym s.0) (sym s.1)
      (Off-SameExtents c.addr c.end cs ds s.2 o.0),
  Apart-SameExtents cs ds s.2 o.1,
)
