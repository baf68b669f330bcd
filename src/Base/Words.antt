-- ===== src/Base/Words.antt =====
-- Machine words of the LP64 targets the program is built for: `size_t` and pointers have 64 bits,
-- `uint_t` and `int` have 32. A word is a native number below its modulus.
use Prim.Native.Nat.{ℕ, ◌+◌, ◌-◌, ◌*◌, ◌%◌, ◌^◌, ◌<◌, ◌≤◌}
use mathlib.Core.Path.{◌≡◌}
use native.Mathlib.Omega.{arith}
use xpipe.Base.Tests.{ltb, if◌then◌else◌}

abbrev pub word64 : ℕ
word64 = 2 ^ 64

abbrev pub word32 : ℕ
word32 = 2 ^ 32

-- `a - b` on `size_t`, and on pointers once the difference is compared with a `size_t`
abbrev pub sub64 : ℕ → ℕ → ℕ
sub64 a b = (a + word64 - b) % word64

-- `a * b` on `uint_t`
abbrev pub mul32 : ℕ → ℕ → ℕ
mul32 a b = a * b % word32

-- an `int`, given by its 32 bits, converted to `size_t`
abbrev pub size_of_int : ℕ → ℕ
size_of_int w = if ltb w (2 ^ 31) then w else w + (word64 - word32)

pub sub64-of_le : (a b : ℕ) → b ≤ a → a < word64 → sub64 a b ≡ a - b
sub64-of_le a b h k = omega arith
