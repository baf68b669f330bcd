-- ===== src/DynamicArray/Create.antt =====
-- `dynamic_array_create` and `dynamic_array_init` (src/dynamic_array.c) make valid arrays.
use native.Mathlib.Nat.{mod-eq_of_lt}
use xpipe.Base.{
  ℕ, ◌*◌, ◌≤◌, ◌<◌, ◌≡◌, ◌≢◌, refl, ◌⊎◌, inl, inr, Option, none, some, Ptr, null, ◌==◌,
  if◌then◌else◌, mul32, word32, word64, arith, Bool-cases, ltb, leb,
}
use xpipe.Allocator.{Allocator}
use xpipe.DynamicArray.{
  DynamicArray, array_size, dynamic_array_create, dynamic_array_get_ix, dynamic_array_push_ix,
  element,
}
use xpipe.DynamicArray.Push.{IsValid}

module _ (al : Allocator) where
  open al use {Pool, alloc}

  -- A new array is empty and valid, with room for `n` elements in the second block, or one of the
  -- two blocks is missing.
  abbrev pub Created : ℕ → ℕ → Ptr → Ptr → Option DynamicArray → Type 0
  Created n size first block none = (first ≡ null) ⊎ (block ≡ null)
  Created n size first block (some a) =
      IsValid a
      × (a.nelts ≡ 0)
      × (a.nalloc ≡ n)
      × (a.size ≡ size)
      × (a.elts ≡ block)
      × (block ≢ null)

  -- For a count and an element size that do not overflow, `dynamic_array_create` gives a valid,
  -- empty array whose block was asked for with `n * size` bytes, or fails for want of memory.
  pub dynamic_array_create-IsValid :
      (n size : ℕ) (pool : Pool)
      → 0 < n
      → n * 2 < word32
      → n * size < word32
      → let pool' = (alloc array_size pool).1 in
        Created n size
          (alloc array_size pool).0
          (alloc (n * size) pool').0
          (dynamic_array_create al n size pool).0
  unfolding dynamic_array_create
  dynamic_array_create-IsValid n size pool pos two h =
      let whole : mul32 n size ≡ n * size = mod-eq_of_lt h in
      let room : 2 * (size * n) < word64 = omega arith in
      rw whole (elim (Bool-cases ((alloc array_size pool).0 == null)) [
        | inl e ↦ rw e (inl (ground arith))
        | inr e ↦ elim (Bool-cases ((alloc (n * size) (alloc array_size pool).1).0 == null)) [
          | inl k ↦ rw (e, k) (inr (ground arith))
          | inr k ↦
              rw (e, k)
                (
                  record {
                    some_room = pos;
                    countable = two;
                    addressable = room;
                    within_room = omega arith;
                  },
                  refl,
                  refl,
                  refl,
                  refl,
                  ground arith,
                )
        ]
      ])

-- `dynamic_array_get_ix` answers within the elements and `dynamic_array_push_ix` within the room,
-- with the same place, and both with NULL outside.
pub dynamic_array_get_ix_lem :
    (a : DynamicArray) (i : ℕ)
    → a.nelts ≤ a.nalloc
    → (dynamic_array_get_ix a i ≡ (if ltb i a.nelts then element a i else null))
      × (dynamic_array_push_ix a i ≡ (if ltb i a.nalloc then element a i else null))
      × ((dynamic_array_get_ix a i ≡ null) ⊎ (dynamic_array_push_ix a i ≡ dynamic_array_get_ix a i))
unfolding dynamic_array_get_ix dynamic_array_push_ix
dynamic_array_get_ix_lem a i h = (
  ground arith,
  ground arith,
  elim (Bool-cases (leb a.nelts i)) [ inl e ↦ inl (ground arith) | inr e ↦ inr (ground arith) ],
)
