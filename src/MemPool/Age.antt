-- ===== src/MemPool/Age.antt =====
-- The `for` of `add_mem_chunk` (src/mem_pool.c): it counts failures and moves `current`, which
-- stays an index into the list, and leaves the chunks where they are.
use xpipe.Base.{
  ℕ, zero, suc, ◌+◌, ◌<◌, ◌≡◌, refl, ap, List, [], ◌∷◌, arith, length, ltb, if◌then◌else◌,
}
use xpipe.MemPool.{Chunk, age, age_from}
use xpipe.MemPool.Extents.{All, FitsIn, used, SameExtents}

pub record Aged (cs : List Chunk) (limit : ℕ) (r : ℕ × List Chunk) : Type 0 where
  pub valid : All FitsIn cs → All FitsIn r.1
  pub extents : SameExtents cs r.1
  pub same : (a : ℕ) → used a r.1 ≡ used a cs
  pub same_length : length r.1 ≡ length cs
  pub current_in : r.0 < limit

age-Aged :
    (i current : ℕ) (cs : List Chunk) {limit : ℕ}
    → current < limit
    → i + length cs ≡ limit
    → Aged cs limit (age i current cs)
unfolding age used
age-Aged i current [] h e = record {
  valid = λ f. f;
  extents = tt;
  same = λ a. refl;
  same_length = refl;
  current_in = h;
}
age-Aged i current (p ∷ []) h e = record {
  valid = λ f. f;
  extents = (refl, refl, tt);
  same = λ a. refl;
  same_length = refl;
  current_in = h;
}
age-Aged i current (p ∷ q ∷ cs) {limit} h e =
    let moved = if ltb 4 p.fail then i + 1 else current in
    let moved_in : moved < limit = ground arith in
    let rest = age-Aged (i + 1) moved (q ∷ cs) moved_in (omega arith) in
    record {
      valid = λ f. (f.0, rest.valid f.1);
      extents = (refl, refl, rest.extents);
      same = λ a. ground (arith, rest.same a);
      same_length = ap suc rest.same_length;
      current_in = rest.current_in;
    }

pub age_from-Aged :
    (k i current : ℕ) (cs : List Chunk) {limit : ℕ}
    → current < limit
    → i + length cs ≡ limit
    → Aged cs limit (age_from k i current cs)
unfolding age_from used
age_from-Aged zero i current cs h e = age-Aged i current cs h e
age_from-Aged (suc k) i current [] h e = record {
  valid = λ f. f;
  extents = tt;
  same = λ a. refl;
  same_length = refl;
  current_in = h;
}
age_from-Aged (suc k) i current (c ∷ cs) h e =
    let rest = age_from-Aged k (i + 1) current cs h (omega arith) in
    record {
      valid = λ f. (f.0, rest.valid f.1);
      extents = (refl, refl, rest.extents);
      same = λ a. ground (arith, rest.same a);
      same_length = ap suc rest.same_length;
      current_in = rest.current_in;
    }
