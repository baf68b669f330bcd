-- ===== src/DynamicArray/Push.antt =====
-- `dynamic_array_push` (src/dynamic_array.c): the elements survive, also when they move.
use xpipe.Base.{ℕ, ◌+◌, ◌*◌, ◌%◌, ◌≤◌, ◌<◌, ◌≡◌, ◌⊎◌, Ptr, null, mul32, word32, word64}
use xpipe.Memory.{Mem}
use xpipe.Allocator.{Allocator}
use xpipe.DynamicArray.{DynamicArray, memcpy, mul64, element, dynamic_array_get_ix}

-- There is room for an element at least, twice the room can still be counted and addressed, and
-- no more elements are in use than there is room for.
pub record IsValid (a : DynamicArray) : Type 0 where
  pub some_room : 0 < a.nalloc
  pub countable : a.nalloc * 2 < word32
  pub addressable : 2 * (a.size * a.nalloc) < word64
  pub within_room : a.nelts ≤ a.nalloc

-- byte `k` of element `i`
abbrev pub at : DynamicArray → ℕ → ℕ → Ptr
at a i k = element a i + k

pub record Pushed (a : DynamicArray) (m : Mem) (p : Ptr) (a' : DynamicArray) (m' : Mem)
    : Type 0 where
  pub one_more : a'.nelts ≡ a.nelts + 1
  pub within_room : a'.nelts ≤ a'.nalloc
  pub same_size : a'.size ≡ a.size
  pub last : dynamic_array_get_ix a' a.nelts ≡ p
  pub kept : (i k : ℕ) → i < a.nelts → k < a.size → m' (at a' i k) ≡ m (at a i k)

module _ (a : DynamicArray) (v : IsValid a) (new : Ptr) (m : Mem) where
  abbrev moved : DynamicArray
  moved = record a { elts = new; nalloc = mul32 a.nalloc 2; nelts = (a.nelts + 1) % word32 }

  abbrev copied : Mem
  copied = memcpy new a.elts (mul64 a.size a.nalloc) m

module _ (al : Allocator) where
  open al use {Pool, alloc}

  abbrev pub PushOutcome : DynamicArray → Pool → Mem → Ptr × DynamicArray × Pool × Mem → Type 0
  PushOutcome a pool m (p, a', pool', m') =
      ((a.nelts ≡ a.nalloc) × (p ≡ null) × (a' ≡ a) × (m' ≡ m)) ⊎ Pushed a m p a' m'
