-- ===== src/Base.antt =====
-- The names that all parts share: the libraries', passed on, Boolean tests on numbers, lists
-- measured by native numbers, machine words, and pointers.
pub mod Tests
pub mod Lists
pub mod Words
pub use Tests.*
pub use Lists.*
pub use Words.*
pub use Prim.Native.Nat.{ℕ, zero, suc, ◌+◌, ◌-◌, ◌*◌, ◌/◌, ◌%◌, ◌^◌, ◌≤◌, ◌<◌}
pub use mathlib.Core.Path.{◌≡◌, refl, sym, ap, ◌∙◌, subst, fun_ext}
pub use mathlib.Core.Logic.{◌≢◌, ◌↔◌, ◌⊎◌, inl, inr}
pub use mathlib.Core.Bool.{Bool, true, false, not, ◌&&◌, ◌||◌}
pub use mathlib.Core.Option.{Option, none, some}
pub use mathlib.Core.List.{List, [], ◌∷◌, ◌++◌, map, append-nil, append_assoc}
pub use native.Mathlib.Omega.{arith}

-- `u_char` strings without their terminating NUL
abbrev pub Bytes : Type 0
Bytes = List ℕ

abbrev pub Ptr : Type 0
Ptr = ℕ

abbrev pub null : Ptr
null = 0

-- how often a number stands in a list
abbrev pub count : ℕ → List ℕ → ℕ
count b [] = 0
count b (c ∷ cs) = (if c == b then 1 else 0) + count b cs
