-- ===== src/Memory.antt =====
-- Byte memory, and what the C library's string functions read of it.
use xpipe.Base.{
  ℕ, zero, suc, ◌+◌, ◌<◌, ◌≤◌, ◌≡◌, ◌≢◌, subst, ap, ◌∙◌, refl, Bool, true, false, ◌&&◌, [], ◌∷◌,
  ◌++◌, Bytes, Ptr, arith, ◌==◌, if◌then◌else◌, length, word64,
}

abbrev pub Mem : Type 0
Mem = Ptr → ℕ

-- `*p = c`
unfoldable pub poke : Ptr → ℕ → Mem → Mem
poke p c m a = if a == p then c else m a

-- The C string at `p`. No string is longer than the address space, so `word64` rounds are enough.
unfoldable pub c_string_fuel : ℕ → Mem → Ptr → Bytes
c_string_fuel zero m p = []
c_string_fuel (suc f) m p = elim (m p == 0) [ true ↦ [] | false ↦ m p ∷ c_string_fuel f m (p + 1) ]

pub c_string_at : Mem → Ptr → Bytes
c_string_at = c_string_fuel word64

-- `strncmp(p, text, n) == 0` for a `text` of `n` bytes with no NUL
unfoldable pub starts_at : Mem → Ptr → Bytes → Bool
starts_at m p [] = true
starts_at m p (c ∷ cs) = m p == c && starts_at m (p + 1) cs

-- the bytes `xs` stand at `p`
abbrev pub Holds : Mem → Ptr → Bytes → Type 0
Holds m p [] = Unit
Holds m p (x ∷ xs) = (m p ≡ x) × Holds m (p + 1) xs

pub starts_at-Holds : (m : Mem) (p : Ptr) (xs : Bytes) → Holds m p xs → starts_at m p xs ≡ true
unfolding starts_at
starts_at-Holds m p [] h = refl
starts_at-Holds m p (x ∷ xs) h = ground (arith, starts_at-Holds m (p + 1) xs)

pub Holds-starts_at : (m : Mem) (p : Ptr) (xs : Bytes) → starts_at m p xs ≡ true → Holds m p xs
unfolding starts_at
Holds-starts_at m p [] h = tt
Holds-starts_at m p (x ∷ xs) h = (ground arith, Holds-starts_at m (p + 1) xs (ground arith))

-- writing in front of the bytes leaves them
pub Holds-poke : (m : Mem) (q c p : ℕ) (xs : Bytes) → q < p → Holds m p xs → Holds (poke q c m) p xs
unfolding poke
Holds-poke m q c p [] l h = tt
Holds-poke m q c p (x ∷ xs) l h = (ground arith, Holds-poke m q c (p + 1) xs (omega arith) h.1)

-- nor does writing behind them
pub Holds-poke_behind :
    (m : Mem) (q c p : ℕ) (xs : Bytes) → p + length xs ≤ q → Holds m p xs → Holds (poke q c m) p xs
unfolding poke
Holds-poke_behind m q c p [] l h = tt
Holds-poke_behind m q c p (x ∷ xs) l h =
    (ground arith, Holds-poke_behind m q c (p + 1) xs (omega arith) h.1)

pub poke_self : (m : Mem) (q c : ℕ) → poke q c m q ≡ c
unfolding poke
poke_self m q c = ground arith

pub Holds-append :
    (m : Mem) (p : ℕ) (xs ys : Bytes)
    → Holds m p (xs ++ ys)
    → Holds m p xs × Holds m (p + length xs) ys
Holds-append m p [] ys h = (tt, subst (λ q. Holds m q ys) (omega arith) h)
Holds-append m p (x ∷ xs) ys h =
    let (front, back) = Holds-append m (p + 1) xs ys h.1 in
    ((h.0, front), subst (λ q. Holds m q ys) (omega arith) back)

abbrev pub NoNul : Bytes → Type 0
NoNul [] = Unit
NoNul (x ∷ xs) = (x ≢ 0) × NoNul xs

c_string_fuel-Holds :
    (f : ℕ) (m : Mem) (p : ℕ) (xs : Bytes)
    → length xs < f
    → NoNul xs
    → Holds m p xs
    → m (p + length xs) ≡ 0
    → c_string_fuel f m p ≡ xs
unfolding c_string_fuel
c_string_fuel-Holds zero m p xs l n h e = absurd (omega arith)
c_string_fuel-Holds (suc f) m p [] l n h e =
    let here : m p ≡ 0 = ap m (omega arith) ∙ e in ground arith
c_string_fuel-Holds (suc f) m p (x ∷ xs) l n h e =
    let shift : p + 1 + length xs ≡ p + suc (length xs) = omega arith in
    let nul : m (p + 1 + length xs) ≡ 0 = ap m shift ∙ e in
    let rest : c_string_fuel f m (p + 1) ≡ xs =
      c_string_fuel-Holds f m (p + 1) xs (omega arith) n.1 h.1 nul in
    ground arith

-- Bytes without NUL, with a NUL behind them, are the C string at their address.
pub c_string_at-Holds :
    (m : Mem) (p : ℕ) (xs : Bytes)
    → length xs < word64
    → NoNul xs
    → Holds m p xs
    → m (p + length xs) ≡ 0
    → c_string_at m p ≡ xs
unfolding c_string_at
c_string_at-Holds = c_string_fuel-Holds word64
