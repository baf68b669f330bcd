-- ===== src/Conf/SafeRun.antt =====
-- `conf_file_parser` (src/conf_file.c) over a whole file: no byte of it makes the parser write past
-- `key` or follow a pointer that is not set, if its words are short enough.
use xpipe.Base.{
  ℕ, ◌+◌, ◌≤◌, Bool, true, false, List, [], ◌∷◌, ◌++◌, Option, none, some, Bytes, ◌≢◌, refl, arith,
  ◌==◌, if◌then◌else◌,
}
use xpipe.Xstring.{lf}
use xpipe.Conf.Settings.{Env, Settings}
use xpipe.Conf.Parser.{
  State, Parser, Step, next, fail, bad, step_in, count_line, step, run, initial, at_end,
  parse_reads, conf_error, undefined,
}
use xpipe.Conf.Invariant.{run_length, AllShort, StateInv, Ensures, Ensures-and_then}
use xpipe.Conf.SafeStep.{Inv, step_in-Inv}

-- the length of the run behind all of the bytes
abbrev pub run_lengths : ℕ → Bytes → ℕ
run_lengths k [] = k
run_lengths k (c ∷ cs) = run_lengths (run_length k c) cs

-- the bytes that the reads give
abbrev pub read_bytes : List (Option Bytes) → Bytes
read_bytes [] = []
read_bytes (none ∷ rs) = read_bytes rs
read_bytes (some bs ∷ rs) = bs ++ read_bytes rs

AllShort-append :
    (k : ℕ) (xs ys : Bytes) → AllShort k (xs ++ ys) → AllShort k xs × AllShort (run_lengths k xs) ys
AllShort-append k [] ys a = (tt, a)
AllShort-append k (c ∷ xs) ys (b, a) =
    let (l, r) = AllShort-append (run_length k c) xs ys a in ((b, l), r)

module _ (env : Env) where
  -- the parser behind some bytes, `k` of them in a run
  abbrev pub Between : ℕ → Parser env → Type 0
  Between k p = (k ≤ 255) × Inv env k p

  relined :
      (n : ℕ) (s : State) (k : ℕ) (q : Parser env)
      → StateInv env s q k
      → StateInv env s (record q { line = n }) k
  relined n s k q h = ground arith

  step-Between :
      (c k : ℕ) (p : Parser env)
      → Between k p
      → run_length k c ≤ 255
      → Ensures env (Between (run_length k c)) (step env c p)
  unfolding step
  step-Between c k p (l, h) b =
      Ensures-and_then env (Inv env (run_length k c)) _ (step_in env p.state c p) (count_line env c)
        (step_in-Inv env p.state c k p refl l h) (λ q i. counted (c == lf) q i)
    where
      counted :
          (t : Bool) (q : Parser env)
          → Inv env (run_length k c) q
          → Between (run_length k c) (if t then record q { line = q.line + 1 } else q)
      counted true q i = (b, relined (q.line + 1) q.state _ q i)
      counted false q i = (b, i)

  run-Between :
      (cs : Bytes) (k : ℕ) (p : Parser env)
      → Between k p
      → AllShort k cs
      → Ensures env (Between (run_lengths k cs)) (run env cs p)
  unfolding run
  run-Between [] k p h a = h
  run-Between (c ∷ cs) k p h (b, a) =
      through (λ q i. run-Between cs (run_length k c) q i a) (step env c p) (step-Between c k p h b)
    where
      through :
          ((q : Parser env)
            → Between (run_length k c) q
            → Ensures env (Between (run_lengths (run_length k c) cs)) (run env cs q))
          → (r : Step env) → Ensures env (Between (run_length k c)) r
          → Ensures env
              (Between (run_lengths (run_length k c) cs))
              (elim r [ next q ↦ run env cs q | fail q ↦ fail q | bad ↦ bad ])
      through ih (next q) i = ih q i
      through ih (fail q) i = tt
      through ih bad i = absurd i

  at_end-defined : (s : State) (p : Parser env) → at_end env s p ≢ undefined
  unfolding at_end
  at_end-defined s p = ground arith

  reads-defined :
      (reads : List (Option Bytes)) (k : ℕ) (p : Parser env)
      → Between k p
      → AllShort k (read_bytes reads)
      → parse_reads env reads p ≢ undefined
  unfolding parse_reads
  reads-defined [] k p h a = at_end-defined p.state p
  reads-defined (none ∷ rs) k p h a = λ e. ground arith
  reads-defined (some [] ∷ rs) k p h a = at_end-defined p.state p
  reads-defined (some (c ∷ cs) ∷ rs) k p h a =
      let (here, later) = AllShort-append k (c ∷ cs) (read_bytes rs) a in
      through (λ q i. reads-defined rs _ q i later) (run env (c ∷ cs) p)
        (run-Between (c ∷ cs) k p h here)
    where
      through :
          ((q : Parser env) → Between (run_lengths k (c ∷ cs)) q → parse_reads env rs q ≢ undefined)
          → (r : Step env) → Ensures env (Between (run_lengths k (c ∷ cs))) r
          → elim r [ next q ↦ parse_reads env rs q | fail q ↦ conf_error q | bad ↦ undefined ]
            ≢ undefined
      through ih (next q) i = ih q i
      through ih (fail q) i = λ e. ground arith
      through ih bad i = absurd i

  -- Whatever the reads of the file give, in pieces of any size: if no stretch of bytes without a
  -- blank or a semicolon is longer than 255, then `conf_file_parser` neither writes past the end
  -- of `key` nor follows a pointer that is NULL or not yet set.
  pub parse_reads-defined :
      (reads : List (Option Bytes)) (s : Settings env)
      → AllShort 0 (read_bytes reads)
      → parse_reads env reads (initial env s) ≢ undefined
  parse_reads-defined reads s a = reads-defined reads 0 (initial env s) (omega arith, refl) a
