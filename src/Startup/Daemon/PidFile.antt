-- ===== src/Startup/Daemon/PidFile.antt =====
-- What `process_daemon` (src/xpipe.c) leaves in the pid file and of the standard descriptors.
use xpipe.Base.{
  ℕ, zero, suc, ◌^◌, ◌<◌, ◌≤◌, ◌≡◌, ◌≢◌, refl, ◌∙◌, ap, subst, arith, Bool, true, false, [], ◌∷◌,
  ◌++◌, append-nil, Option, none, some, Bytes, ltb, ◌==◌, if◌then◌else◌, length, take, drop,
}
use xpipe.Xstring.{atoi}
use xpipe.Startup.Daemon.{
  Forked, in_parent, in_child, not_forked, dev_null, Fds, redirect, created, overwrite, exited,
  returned, in_background, process_daemon,
}
use xpipe.Xstring.Decimal.{decimal, atoi-decimal}

-- The pid's digits, over the start of what the file held; if that was no longer than they are, the
-- file is read as the pid.
abbrev pub Recorded : ℕ → Option Bytes → Option Bytes → Type 0
Recorded pid old file =
    (content : Bytes) × (file ≡ some content)
    × (content ≡ decimal pid ++ drop (length (decimal pid)) (created old))
    × (length (created old) ≤ length (decimal pid) → atoi content ≡ pid)

-- input, output and errors go to /dev/null, if that can be opened, and no descriptor is left of it
abbrev pub Redirected : Option ℕ → Fds → Fds → Type 0
Redirected none f f' = (g : ℕ) → f' g ≡ f g
Redirected (some fd) f f' =
    (g : ℕ) → f' g ≡ (if ltb g 3 then some dev_null else if g == fd then none else f g)

redirect-Redirected : (fd : Option ℕ) (f : Fds) → Redirected fd f (redirect fd f)
unfolding redirect
redirect-Redirected none f = λ g. refl
redirect-Redirected (some fd) f = λ g. ground arith

take-length : (xs : Bytes) → take (length xs) xs ≡ xs
take-length [] = refl
take-length (x ∷ xs) = ap (◌∷◌ x) (take-length xs)

drop-past : (n : ℕ) (xs : Bytes) → length xs ≤ n → drop n xs ≡ []
drop-past zero [] h = refl
drop-past zero (x ∷ xs) h = absurd (omega arith)
drop-past (suc n) [] h = refl
drop-past (suc n) (x ∷ xs) h = drop-past n xs (omega arith)

whole-Recorded :
    (pid n : ℕ) (old : Option Bytes)
    → pid < 2 ^ 31
    → (n == length (decimal pid)) ≡ true
    → Recorded pid old (some (overwrite n (decimal pid) (created old)))
whole-Recorded pid n old h e =
    let all : n ≡ length (decimal pid) = ground (arith, e) in
    let text : overwrite n (decimal pid) (created old)
        ≡ decimal pid ++ drop (length (decimal pid)) (created old) =
      ap (λ m. overwrite m (decimal pid) (created old)) all
      ∙ ap (λ t. t ++ drop (length (decimal pid)) (created old)) (take-length (decimal pid)) in
    (
      _,
      refl,
      text,
      λ short.
          ap atoi (
            text
            ∙ ap (λ t. decimal pid ++ t) (drop-past (length (decimal pid)) (created old) short)
            ∙ append-nil (decimal pid))
          ∙ atoi-decimal pid h,
    )

in_background-Recorded :
    (null_fd : Option ℕ) (opens : Bool) (pid : ℕ) (n : Option ℕ) (f f' : Fds)
    (old file : Option Bytes)
    → pid < 2 ^ 31
    → in_background null_fd opens pid n f old ≡ returned true f' file
    → Redirected null_fd f f' × Recorded pid old file
unfolding in_background
in_background-Recorded null_fd false pid n f f' old file h e = cc
in_background-Recorded null_fd true pid none f f' old file h e = cc
in_background-Recorded null_fd true pid (some n) f f' old file h e =
    let all : (n == length (decimal pid)) ≡ true = cc in
    let fds : redirect null_fd f ≡ f' = cc in
    let text : some (overwrite n (decimal pid) (created old)) ≡ file = cc in
    (
      subst (Redirected null_fd f) fds (redirect-Redirected null_fd f),
      subst (Recorded pid old) text (whole-Recorded pid n old h all),
    )

-- If `daemon` is not off and the call returns XPE_OK at all, then it is the child that goes on. Its
-- standard descriptors refer to /dev/null if that can be opened, and it keeps no other descriptor
-- of it. The pid file has the digits of the pid at its start and behind them what it held before
-- at that place; so it is read as the pid if it was not longer than its digits.
pub process_daemon-Recorded :
    (daemon : ℕ) (forked : Forked) (null_fd : Option ℕ) (opens : Bool) (pid : ℕ) (n : Option ℕ)
    (f f' : Fds) (old file : Option Bytes)
    → daemon ≢ 0
    → pid < 2 ^ 31
    → process_daemon daemon forked null_fd opens pid n f old ≡ returned true f' file
    → (forked ≡ in_child) × Redirected null_fd f f' × Recorded pid old file
unfolding process_daemon
process_daemon-Recorded daemon forked null_fd opens pid n f f' old file on h e =
    let off : (daemon == 0) ≡ false = ground (arith, on) in forks forked (rw off at e)
  where
    forks :
        (g : Forked)
        → (elim g [
          | in_parent ↦ exited
          | in_child ↦ in_background null_fd opens pid n f old
          | not_forked ↦ exited
        ])
          ≡ returned true f' file
        → (g ≡ in_child) × Redirected null_fd f f' × Recorded pid old file
    forks in_parent e = cc
    forks not_forked e = cc
    forks in_child e =
        let (r, k) = in_background-Recorded null_fd opens pid n f f' old file h e in (refl, r, k)
