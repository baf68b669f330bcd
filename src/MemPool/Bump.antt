-- ===== src/MemPool/Bump.antt =====
-- The `do … while` of `pmalloc` (src/mem_pool.c): what it takes was not in use before.
use xpipe.Base.{
  ℕ, zero, suc, Ptr, ◌+◌, ◌≤◌, ◌<◌, ◌≡◌, refl, inl, inr, true, false, ◌||◌, List, [], ◌∷◌, Option,
  none, some, arith, Bool-cases,
}
use xpipe.MemPool.{Chunk, fits, bump, bump_from}
use xpipe.MemPool.Extents.{
  All, within, FitsIn, Apart, covers, used, SameExtents, SameExtents-refl, used-covers,
  not-covers-Off,
}

-- `cs'` is `cs` with the `size` bytes at `p` taken from one of its chunks.
pub record Bumped (size : ℕ) (cs : List Chunk) (p : Ptr) (cs' : List Chunk) : Type 0 where
  pub valid : All FitsIn cs'
  pub extents : SameExtents cs cs'
  pub nonzero : 0 < p
  pub covered : (a : ℕ) → within p size a ≡ true → covers a cs ≡ true
  pub fresh : (a : ℕ) → within p size a ≡ true → used a cs ≡ false
  pub grown : (a : ℕ) → used a cs' ≡ (used a cs || within p size a)

abbrev pub Outcome : ℕ → List Chunk → Option (Ptr × List Chunk) → Type 0
Outcome size cs none = Unit
Outcome size cs (some (p, cs')) = Bumped size cs p cs'

module _ (size : ℕ) (c : Chunk) (cs : List Chunk) (f : All FitsIn (c ∷ cs))
    (o : Apart (c ∷ cs)) where
  not-used-tail : (a : ℕ) → c.addr ≤ a → a < c.end → used a cs ≡ false
  not-used-tail a h k = used-covers a cs f.1 (not-covers-Off a c.addr c.end cs o.0 h k)

  Bumped-here :
      fits size c ≡ true → Bumped size (c ∷ cs) c.last (record c { last = c.last + size } ∷ cs)
  unfolding used covers
  Bumped-here h = record {
    valid = (ground arith, f.1);
    extents = (refl, refl, SameExtents-refl cs);
    nonzero = ground arith;
    covered = λ a w. ground arith;
    fresh = λ a w. ground (arith, not-used-tail a);
    grown = λ a. ground (arith, not-used-tail a);
  }

  Bumped-tail :
      {p : Ptr} {cs' : List Chunk} → Bumped size cs p cs' → Bumped size (c ∷ cs) p (c ∷ cs')
  unfolding used covers
  Bumped-tail b = record {
    valid = (f.0, b.valid);
    extents = (refl, refl, b.extents);
    nonzero = b.nonzero;
    covered = λ a w. ground (arith, b.covered a);
    fresh = λ a w. ground (arith, b.covered a, b.fresh a, not-covers-Off a c.addr c.end cs o.0);
    grown = λ a. ground (arith, b.grown a);
  }

  Outcome-tail :
      (r : Option (Ptr × List Chunk))
      → Outcome size cs r
      → Outcome size (c ∷ cs) (elim r [ none ↦ none | some (p, cs') ↦ some (p, c ∷ cs') ])
  Outcome-tail none b = tt
  Outcome-tail (some (p, cs')) b = Bumped-tail b

bump-Bumped :
    (size : ℕ) (cs : List Chunk) → All FitsIn cs → Apart cs → Outcome size cs (bump size cs)
unfolding bump
bump-Bumped size [] f o = tt
bump-Bumped size (c ∷ cs) f o = elim (Bool-cases (fits size c)) [
  | inl h ↦ rw h (Bumped-here size c cs f o h)
  | inr h ↦ rw h (Outcome-tail size c cs f o (bump size cs) (bump-Bumped size cs f.1 o.1))
]

pub bump_from-Bumped :
    (i size : ℕ) (cs : List Chunk)
    → All FitsIn cs
    → Apart cs
    → Outcome size cs (bump_from i size cs)
unfolding bump_from
bump_from-Bumped zero size cs f o = bump-Bumped size cs f o
bump_from-Bumped (suc i) size [] f o = tt
bump_from-Bumped (suc i) size (c ∷ cs) f o =
    Outcome-tail size c cs f o (bump_from i size cs) (bump_from-Bumped i size cs f.1 o.1)
