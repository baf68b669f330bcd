-- ===== src/FileAccess/Written.antt =====
-- `file_write` (src/xfile.c) writes all of its bytes in order, or reports an error.
use xpipe.Base.{
  take-drop, length-drop, length-append, drop-length, ℕ, ◌+◌, ◌-◌, ◌≤◌, ◌<◌, ◌≡◌, ◌⊎◌, inl, inr,
  refl, ap, ◌∙◌, arith, Bool, true, List, [], ◌∷◌, ◌++◌, append_assoc, Option, none, some, Bytes,
  ◌==◌, length, take, drop, Bool-cases, Option-cases,
}
use xpipe.FileAccess.{OpenFile, Writing, write_loop, seek, write_at, file_write}

-- what `write` may answer while `k` bytes are left: it takes no more, and some if there are any
abbrev pub Takes : ℕ → List (Option ℕ) → Type 0
Takes k [] = Unit
Takes k (none ∷ ws) = Unit
Takes k (some n ∷ ws) = (n ≤ k) × ((k ≡ 0) ⊎ (0 < n)) × Takes (k - n) ws

-- what the system took is the front of the bytes, the file's offset has moved by its length, and
-- if no error is returned all of them went and their number is returned
abbrev pub Wrote : Bytes → ℕ → OpenFile → Writing → Type 0
Wrote bs written f w =
    (rest : Bytes) × (w.took ++ rest ≡ bs)
    × (w.file.offset ≡ f.offset + length w.took)
    × ((w.result ≡ none) ⊎ ((w.result ≡ some (written + length bs)) × (rest ≡ [])))

took_all : (n : ℕ) (xs : Bytes) → n ≤ length xs → length (take n xs) ≡ n
took_all n xs h =
    omega (
      arith,
      length-append (take n xs) (drop n xs),
      length-drop n xs,
      h,
      ap length (take-drop n xs),
    )

all_dropped : (n : ℕ) (xs : Bytes) → (n == length xs) ≡ true → drop n xs ≡ []
all_dropped n xs e =
    let same : n ≡ length xs = ground arith in ap (λ k. drop k xs) same ∙ drop-length xs

write_loop-Wrote :
    (ws : List (Option ℕ)) (bs : Bytes) (written : ℕ) (f : OpenFile)
    → Takes (length bs) ws
    → length bs < length ws
    → (w : Writing) × (write_loop ws bs written f ≡ some w) × Wrote bs written f w
unfolding write_loop
write_loop-Wrote [] bs written f t l = absurd (omega arith)
write_loop-Wrote (none ∷ ws) bs written f t l = (_, refl, (bs, refl, omega arith, inl refl))
write_loop-Wrote (some n ∷ ws) bs written f (fit, some_taken, t) l =
    let took : length (take n bs) ≡ n = took_all n bs fit in
    elim (Bool-cases (n == length bs)) [
      | inl e ↦ rw e (
        _,
        refl,
        (
          drop n bs,
          take-drop n bs,
          (omega (arith, took)),
          inr (ground (arith, e), all_dropped n bs e),
        ),
      )
      | inr e ↦
          let left = length-drop n bs in
          let total : written + n + length (drop n bs) ≡ written + length bs =
            omega (arith, left, fit) in
          let (w, k, (rest, p, o, r)) =
            write_loop-Wrote ws (drop n bs) (written + n) (record f { offset = f.offset + n })
              (rw left t) (ground (arith, left, e, some_taken)) in
          rw (e, k)
            (
              _,
              refl,
              (
                rest,
                append_assoc (take n bs) w.took rest ∙ ap (λ x. take n bs ++ x) p ∙ take-drop n bs,
                omega (arith, o, length-append (take n bs) w.took, took),
                elim r [ inl x ↦ inl x | inr (a, b) ↦ inr (a ∙ ap some total, b) ],
              ),
            )
    ]

-- where the bytes are to go
abbrev pub place : Option ℕ → OpenFile → ℕ
place none f = f.offset
place (some o) f = o

-- the seek failed and nothing was written, or the file was written from the place on
abbrev pub Placed : Option ℕ → Bytes → OpenFile → Writing → Type 0
Placed o bs f w =
    ((w.took ≡ []) × (w.result ≡ none))
    ⊎ ((f' : OpenFile) × (f'.offset ≡ place o f) × Wrote bs 0 f' w)

seek-place :
    (o : Option ℕ) (seeks : Bool) (f f' : OpenFile)
    → seek o seeks f ≡ some f'
    → f'.offset ≡ place o f
unfolding seek
seek-place none seeks f f' e = ground arith
seek-place (some o) seeks f f' e = ground arith

-- With answers of `write` as the system gives them, and one more of these than there are bytes,
-- `file_write` returns. Unless it cannot seek, it has written a front of the bytes in order from
-- the place on, and moved the file's offset by as many. It returns XPE_ERROR, or the number of all
-- bytes, and then all of them are written.
pub file_write-Placed :
    (o : Option ℕ) (seeks : Bool) (ws : List (Option ℕ)) (bs : Bytes) (f : OpenFile)
    → Takes (length bs) ws
    → length bs < length ws
    → (w : Writing) × (file_write o seeks ws bs f ≡ some w) × Placed o bs f w
unfolding file_write write_at
file_write-Placed o seeks ws bs f t l = elim (Option-cases (seek o seeks f)) [
  | inl e ↦ rw (e, file_write) (_, refl, inl (refl, refl))
  | inr (f', e) ↦
      let (w, k, h) = write_loop-Wrote ws bs 0 f' t l in
      rw (e, file_write) (w, k, inr (f', seek-place o seeks f f' e, h))
]
