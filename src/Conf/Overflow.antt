-- ===== src/Conf/Overflow.antt =====
-- A name in the file that is longer than `key` of src/conf_file.c.
use xpipe.Base.{
  ℕ, ◌+◌, ◌≤◌, ◌<◌, true, List, [], ◌∷◌, ◌++◌, Option, some, Bytes, ◌≡◌, refl, ap, ◌∙◌, arith, ltb,
  Bool-cases, inl, inr, if◌then◌else◌, length, length-append,
}
use xpipe.Xstring.{is_letter}
use xpipe.Conf.Settings.{Env, Settings}
use xpipe.Conf.Parser.{
  key_size, State, sw_out, sw_mod_name, Parser, next, fail, bad, and_then, put_key, step_in, step,
  run, parse_reads, Parsed, conf_error, undefined, initial,
}
use xpipe.Conf.Reads.{run-append}

abbrev pub Letters : Bytes → Type 0
Letters [] = Unit
Letters (c ∷ cs) = (is_letter c ≡ true) × Letters cs

module _ (env : Env) where
  letter_step_in :
      (c : ℕ) (p : Parser env) → is_letter c ≡ true → step_in env sw_mod_name c p ≡ put_key env c p
  unfolding step_in is_letter
  letter_step_in c p h = ground arith

  letter_step :
      (c : ℕ) (p : Parser env)
      → p.state ≡ sw_mod_name
      → is_letter c ≡ true
      → step env c p
        ≡ (if ltb (length p.key) key_size then next (record p { key = p.key ++ c ∷ [] }) else bad)
  unfolding step put_key is_letter
  letter_step c p s h = rw (at p.state s) (ground arith)
    where
      at : (t : State) → t ≡ sw_mod_name → step_in env t c p ≡ put_key env c p
      at t e = rw e (letter_step_in c p h)

  Letters-overflow :
      (cs : Bytes) (p : Parser env)
      → p.state ≡ sw_mod_name
      → Letters cs
      → length p.key ≤ key_size
      → key_size < length p.key + length cs
      → run env cs p ≡ bad
  unfolding run
  Letters-overflow [] p s h l o = absurd (omega (arith, l, o))
  Letters-overflow (c ∷ cs) p s h l o = elim (Bool-cases (ltb (length p.key) key_size)) [
    | inl e ↦
        rw (letter_step c p s h.0, run, e)
          (Letters-overflow cs (record p { key = p.key ++ c ∷ [] }) s h.1
            (ground (arith, length-append p.key (c ∷ [])))
            (omega (arith, o, length-append p.key (c ∷ []))))
    | inr e ↦ rw (letter_step c p s h.0, run, e) refl
  ]

  first_letter :
      (c : ℕ) (p : Parser env)
      → is_letter c ≡ true
      → step_in env sw_out c p ≡ step_in env sw_mod_name c (record p { state = sw_mod_name })
  unfolding step_in is_letter
  first_letter c p h = ground arith

  -- A file that begins with a name of more than 256 letters makes `conf_file_parser` write past
  -- the end of `key`, whatever follows in that read and in the later ones.
  pub parse_reads-long_name :
      (name rest : Bytes) (rs : List (Option Bytes)) (s : Settings env)
      → Letters name
      → 256 < length name
      → parse_reads env (some (name ++ rest) ∷ rs) (initial env s) ≡ undefined
  unfolding parse_reads run step
  parse_reads-long_name [] rest rs s h o = absurd (omega (arith, o))
  parse_reads-long_name (c ∷ cs) rest rs s h o =
      let p = record (initial env s) { state = sw_mod_name } in
      let over : run env (c ∷ cs) p ≡ bad =
        Letters-overflow (c ∷ cs) p refl h (omega arith) (omega (arith, o)) in
      let all : run env ((c ∷ cs) ++ rest) p ≡ bad =
        run-append env (c ∷ cs) rest p ∙ ap (λ r. and_then env r (run env rest)) over in
      rw (first_letter c (initial env s) h.0, parse_reads)
        (ap
          (λ r. elim r as (λ x. Parsed env) [
            | next q ↦ parse_reads env rs q
            | fail q ↦ conf_error q
            | bad ↦ undefined
          ])
          all)
