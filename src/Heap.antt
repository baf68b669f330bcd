-- ===== src/Heap.antt =====
-- The C library's heap, as the pools use it.
use xpipe.Base.{ℕ, ◌==◌, List, [], ◌∷◌, Ptr, null, if◌then◌else◌}

-- `malloc` answers with the addresses of `answers` in turn, `null` for a failure, and with
-- `null` when they have run out. `blocks` are those handed out, newest first, with their sizes,
-- and `freed` the arguments of `free`, newest first.
pub record Heap : Type 0 where
  pub answers : List Ptr
  pub blocks : List (Ptr × ℕ)
  pub freed : List Ptr

malloc_from : List Ptr → ℕ → Heap → Ptr × Heap
malloc_from [] size h = (null, h)
malloc_from (a ∷ rest) size h =
    if a == null
    then (null, record h { answers = rest })
    else (a, record h { answers = rest; blocks = (a, size) ∷ h.blocks })

unfoldable pub malloc : ℕ → Heap → Ptr × Heap
unfolding malloc_from
malloc size h = malloc_from h.answers size h

abbrev pub free : Ptr → Heap → Heap
free p h = record h { freed = p ∷ h.freed }
