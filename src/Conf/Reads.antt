-- ===== src/Conf/Reads.antt =====
-- The file may come in any pieces (`READ_CONF_FILE` of src/conf_file.c).
use xpipe.Base.{List, [], ◌∷◌, ◌++◌, some, Bytes, map, ◌≡◌, ◌≢◌, refl, ◌∙◌, ap, sym}
use xpipe.Conf.Settings.{Env}
use xpipe.Conf.Parser.{
  Parser, Step, next, fail, bad, and_then, step, run, Parsed, conf_error, undefined, at_end,
  parse_reads,
}

abbrev pub join : List Bytes → Bytes
join [] = []
join (b ∷ bs) = b ++ join bs

abbrev pub NonEmpty : List Bytes → Type 0
NonEmpty [] = Unit
NonEmpty (b ∷ bs) = (b ≢ []) × NonEmpty bs

module _ (env : Env) where
  pub run-append :
      (xs ys : Bytes) (p : Parser env)
      → run env (xs ++ ys) p ≡ and_then env (run env xs p) (run env ys)
  unfolding run
  run-append [] ys p = refl
  run-append (c ∷ xs) ys p = through (run-append xs ys) (step env c p)
    where
      through :
          ((q : Parser env) → run env (xs ++ ys) q ≡ and_then env (run env xs q) (run env ys))
          → (r : Step env)
          → ◌≡◌ {A = Step env}
              (elim r [ next q ↦ run env (xs ++ ys) q | fail q ↦ fail q | bad ↦ bad ])
              (and_then env
                (elim r [ next q ↦ run env xs q | fail q ↦ fail q | bad ↦ bad ])
                (run env ys))
      through ih (next q) = ih q
      through ih (fail q) = refl
      through ih bad = refl

  -- what the loop's result means at the end of the file
  abbrev pub parsed : Step env → Parsed env
  parsed (next q) = at_end env q.state q
  parsed (fail q) = conf_error q
  parsed bad = undefined

  -- A file that is read in non-empty pieces parses as its bytes on end do in one piece.
  pub parse_reads-join :
      (pieces : List Bytes) (p : Parser env)
      → NonEmpty pieces
      → parse_reads env (map some pieces) p ≡ parsed (run env (join pieces) p)
  unfolding parse_reads run
  parse_reads-join [] p h = refl
  parse_reads-join ([] ∷ bs) p h = absurd (h.0 refl)
  parse_reads-join ((c ∷ cs) ∷ bs) p h =
      through (λ q. parse_reads-join bs q h.1) (run env (c ∷ cs) p)
      ∙ ap parsed (sym (run-append (c ∷ cs) (join bs) p))
    where
      through :
          ((q : Parser env) → parse_reads env (map some bs) q ≡ parsed (run env (join bs) q))
          → (r : Step env)
          → ◌≡◌ {A = Parsed env}
              (elim r [
                | next q ↦ parse_reads env (map some bs) q
                | fail q ↦ conf_error q
                | bad ↦ undefined
              ])
              (parsed (and_then env r (run env (join bs))))
      through ih (next q) = ih q
      through ih (fail q) = refl
      through ih bad = refl
