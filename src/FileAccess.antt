-- ===== src/FileAccess.antt =====
-- `file_read` and `file_write` (src/xfile.c), on what `lseek`, `read` and `write` give.
pub mod Written
use xpipe.Base.{
  ℕ, ◌+◌, ◌-◌, Bool, true, false, not, ◌&&◌, List, [], ◌∷◌, ◌++◌, Option, none, some, Bytes, ◌==◌,
  if◌then◌else◌, length, take, drop,
}

-- `file_t`, but for its descriptor and name
pub record OpenFile : Type 0 where
  pub offset : ℕ

-- what `file_write` has come to: the bytes that the system took, the file, and the value returned,
-- `none` for XPE_ERROR
pub record Writing : Type 0 where
  pub took : Bytes
  pub file : OpenFile
  pub result : Option ℕ

-- The part of both functions in front of the transfer; `none` for the offset is FL_DEFAULT_OFFSET,
-- and for the result XPE_ERROR. `seeks` tells whether `lseek` succeeds.
unfoldable pub seek : Option ℕ → Bool → OpenFile → Option OpenFile
seek none seeks f = some f
seek (some o) seeks f =
    if o == f.offset then some f else if seeks then some (record f { offset = o }) else none

-- the end of `file_read`, with what `read` gives, `none` for -1
unfoldable pub read_at : Option OpenFile → Option Bytes → Option (Bytes × OpenFile)
read_at none got = none
read_at (some f) none = none
read_at (some f) (some bs) = some (bs, record f { offset = f.offset + length bs })

-- `file_read`
unfoldable pub file_read : Option ℕ → Bool → Option Bytes → OpenFile → Option (Bytes × OpenFile)
unfolding seek read_at
file_read offset seeks got f = read_at (seek offset seeks f) got

-- The `for` of `file_write`, with the bytes that are left, how many went, and the answers of
-- `write`, `none` for -1. The result is `none` if the answers run out.
unfoldable pub write_loop : List (Option ℕ) → Bytes → ℕ → OpenFile → Option Writing
write_loop [] bs written f = none
write_loop (none ∷ ws) bs written f = some (record { took = []; file = f; result = none })
write_loop (some n ∷ ws) bs written f =
    let f' = record f { offset = f.offset + n } in
    let rest = write_loop ws (drop n bs) (written + n) f' in
    if n == length bs
    then some (record { took = take n bs; file = f'; result = some (written + n) })
    else elim rest [ none ↦ none | some w ↦ some (record w { took = take n bs ++ w.took }) ]

unfoldable pub write_at : Option OpenFile → OpenFile → List (Option ℕ) → Bytes → Option Writing
unfolding write_loop
write_at none f ws bs = some (record { took = []; file = f; result = none })
write_at (some f') f ws bs = write_loop ws bs 0 f'

-- `file_write`
unfoldable pub file_write : Option ℕ → Bool → List (Option ℕ) → Bytes → OpenFile → Option Writing
unfolding seek write_at
file_write offset seeks ws bs f = write_at (seek offset seeks f) f ws bs
