-- ===== src/DynamicArray.antt =====
-- src/dynamic_array.c and src/dynamic_array.h: arrays of `size`-byte elements in a pool.
pub mod Push
pub mod Create
use xpipe.Base.{
  ℕ, ◌+◌, ◌-◌, ◌*◌, ◌%◌, Bool, true, false, Option, none, some, Ptr, null, ltb, leb, ◌==◌,
  if◌then◌else◌, mul32, word32, word64,
}
use xpipe.Memory.{Mem}
use xpipe.MemPool.Extents.{within}
use xpipe.Allocator.{Allocator}

-- `dynamic_array_t`, but for its `pool`, which is the state of the allocator
pub record DynamicArray : Type 0 where
  pub elts : Ptr
  pub size : ℕ
  pub nelts : ℕ
  pub nalloc : ℕ

-- sizeof(dynamic_array_t)
abbrev pub array_size : ℕ
array_size = 32

-- `memcpy`
unfoldable pub memcpy : Ptr → Ptr → ℕ → Mem → Mem
memcpy dst src n m a = if within dst n a then m (src + (a - dst)) else m a

abbrev pub mul64 : ℕ → ℕ → ℕ
mul64 a b = a * b % word64

-- `(u_char *) array->elts + i * array->size`
abbrev pub element : DynamicArray → ℕ → Ptr
element a i = a.elts + mul64 i a.size

-- `dynamic_array_get_ix`
unfoldable pub dynamic_array_get_ix : DynamicArray → ℕ → Ptr
dynamic_array_get_ix a i = if leb a.nelts i then null else element a i

-- `dynamic_array_push_ix`
unfoldable pub dynamic_array_push_ix : DynamicArray → ℕ → Ptr
dynamic_array_push_ix a i = if leb a.nalloc i then null else element a i

module _ (al : Allocator) where
  open al use {Pool, alloc}

  -- `dynamic_array_init`; `n * size` is a product of `size_t`s
  unfoldable pub dynamic_array_init : ℕ → ℕ → Pool → Option DynamicArray × Pool
  dynamic_array_init n size p =
      let (e, p') = alloc (mul64 n size) p in
      if e == null
      then (none, p')
      else (some (record { elts = e; size = size; nelts = 0; nalloc = n }), p')

  -- `dynamic_array_create`; `n * size` is a product of `uint_t`s
  unfoldable pub dynamic_array_create : ℕ → ℕ → Pool → Option DynamicArray × Pool
  dynamic_array_create n size p =
      let (a, p') = alloc array_size p in
      let (e, p'') = alloc (mul32 n size) p' in
      if a == null
      then (none, p')
      else if e == null
      then (none, p'')
      else (some (record { elts = e; size = size; nelts = 0; nalloc = n }), p'')

  -- the end of `dynamic_array_push`
  take_slot : DynamicArray → Pool → Mem → Ptr × DynamicArray × Pool × Mem
  take_slot a p m = (element a a.nelts, record a { nelts = (a.nelts + 1) % word32 }, p, m)

  -- `dynamic_array_push`
  unfoldable pub dynamic_array_push : DynamicArray → Pool → Mem → Ptr × DynamicArray × Pool × Mem
  unfolding take_slot
  dynamic_array_push a p m =
      let size = mul64 a.size a.nalloc in
      let (new, p') = alloc (mul64 2 size) p in
      let grown = record a { nalloc = mul32 a.nalloc 2; elts = new } in
      if a.nelts == a.nalloc
      then (if new == null then (null, a, p', m) else take_slot grown p' (memcpy new a.elts size m))
      else take_slot a p m
