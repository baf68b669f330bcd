-- ===== src/Conf/SafeStep.antt =====
-- One byte in the state machine of src/conf_file.c: the parser stays well formed.
use xpipe.Base.{
  ℕ, ◌+◌, ◌≤◌, true, false, [], ◌∷◌, ◌++◌, ◌≡◌, sym, subst, arith, ◌==◌, Bool-cases, inl, inr,
  length, length-append, ltb,
}
use xpipe.Xstring.{is_blank, is_letter, is_digit, lf}
use xpipe.Conf.Settings.{Env}
use xpipe.Conf.Parser.{
  key_size, is_name, State, Parser, put_key, start_command, end_name, end_last_word, step_block,
  step_in, sw_out, sw_comment, sw_comment_end, sw_mod_name, sw_mod_name_end, sw_mod_name_end_blank,
  sw_mod_block, sw_mod_block_end, sw_command, sw_command_blank, sw_command_end,
}
use xpipe.Conf.Invariant.{run_length, Ready, Resumes, StateInv, Ensures, Ensures-mono}
use xpipe.Conf.Safety.{
  Named, end_name-Named, Worded, Ready-Worded, command_end-Done, end_word-Worded,
  end_last_word-Done, start_command-Inv,
}

module _ (env : Env) where
  -- between two bytes, with `k` bytes of a run behind the parser
  abbrev pub Inv : ℕ → Parser env → Type 0
  Inv k p = StateInv env p.state p k

  in_state : (s : State) (k : ℕ) (q : Parser env) → q.state ≡ s → StateInv env s q k → Inv k q
  in_state s k q e h = subst (λ t. StateInv env t q k) (sym e) h

  put_key-Inv :
      (c k : ℕ) (p : Parser env)
      → length p.key ≤ 255
      → Inv k (record p { key = p.key ++ c ∷ [] })
      → Ensures env (Inv k) (put_key env c p)
  unfolding put_key
  put_key-Inv c k p l h = let fits : ltb (length p.key) key_size ≡ true = ground arith in rw fits h

  run_length-suc : (c k : ℕ) → is_blank c ≡ false → (c == b';') ≡ false → run_length k c ≡ k + 1
  run_length-suc c k b h = ground arith

  letter_length : (c k : ℕ) → is_letter c ≡ true → run_length k c ≡ k + 1
  unfolding is_letter is_blank
  letter_length c k h = ground arith

  started :
      (c k : ℕ) (p : Parser env)
      → p.key ≡ []
      → Ready env p
      → is_letter c ≡ true
      → Ensures env (Inv (run_length k c)) (start_command env c p)
  started c k p e r letter =
      Ensures-mono env _ (Inv (run_length k c)) (start_command env c p)
        (start_command-Inv env c k p e r)
        λ q d. in_state sw_command _ q d.0 (omega (arith, d.1, letter_length c k letter), d.2, d.3)

  step_block-Inv :
      (c k : ℕ) (p : Parser env)
      → p.key ≡ []
      → Ready env p
      → Inv (run_length k c) p
      → Ensures env (Inv (run_length k c)) (step_block env c p)
  unfolding step_block
  step_block-Inv c k p e r same = ground (arith, started c k p e r)

  named :
      (k : ℕ) (p : Parser env)
      → length p.key ≤ 255
      → ((q : Parser env) → Named env p q → Inv k q)
      → Ensures env (Inv k) (end_name env p)
  named k p l f = Ensures-mono env (Named env p) (Inv k) (end_name env p) (end_name-Named env p l) f

  name_length : (c k : ℕ) → is_name c ≡ true → run_length k c ≡ k + 1
  unfolding is_letter is_digit is_blank
  name_length c k h = ground arith

  resumed :
      (s : State) (k : ℕ) (p : Parser env)
      → p.key ≡ []
      → Resumes env s p
      → StateInv env s (record p { state = s }) k
  resumed sw_out k p e r = e
  resumed sw_comment k p e r = absurd r
  resumed sw_comment_end k p e r = absurd r
  resumed sw_mod_name k p e r = absurd r
  resumed sw_mod_name_end k p e r = absurd r
  resumed sw_mod_name_end_blank k p e r = (e, r)
  resumed sw_mod_block k p e r = (e, r)
  resumed sw_mod_block_end k p e r = absurd r
  resumed sw_command k p e r = absurd r
  resumed sw_command_blank k p e r = absurd r
  resumed sw_command_end k p e r = absurd r

  pub step_in-Inv :
      (s : State) (c k : ℕ) (p : Parser env)
      → p.state ≡ s
      → k ≤ 255
      → StateInv env s p k
      → Ensures env (Inv (run_length k c)) (step_in env s c p)
  unfolding step_in
  step_in-Inv sw_out c k p s l h = ground (
    arith,
    put_key-Inv c (run_length k c) (record p { state = sw_mod_name }),
    h,
    letter_length c k,
    length-append p.key (c ∷ []),
    in_state sw_out (run_length k c) p s h,
  )
  step_in-Inv sw_comment c k p s l h = elim (Bool-cases (c == lf)) [
    | inl e ↦ rw e (resumed p.old_state (run_length k c) p h.0 h.1)
    | inr e ↦ rw e (in_state sw_comment _ p s h)
  ]
  step_in-Inv sw_comment_end c k p s l h = absurd h
  step_in-Inv sw_mod_name c k p s l h = ground (
    arith,
    name_length c k,
    put_key-Inv c (run_length k c) p (omega (arith, h, l)),
    in_state sw_mod_name (run_length k c) (record p { key = p.key ++ c ∷ [] }) s,
    length-append p.key (c ∷ []),
    named (run_length k c) (record p { state = sw_mod_name_end_blank }) (omega (arith, h, l))
        (λ q n. in_state sw_mod_name_end_blank _ q n.0 (n.2, n.3)),
    named (run_length k c) (record p { state = sw_mod_block }) (omega (arith, h, l))
        (λ q n. in_state sw_mod_block _ q n.0 (n.2, n.3)),
    named (run_length k c) (record p { old_state = sw_mod_name_end_blank; state = sw_comment })
        (omega (arith, h, l))
        (λ q n. in_state sw_comment _ q n.0 (n.2, subst (λ t. Resumes env t q) (sym n.1) n.3)),
  )
  step_in-Inv sw_mod_name_end c k p s l h = absurd h
  step_in-Inv sw_mod_name_end_blank c k p s l h =
      ground (arith, step_block-Inv c k p h.0 h.1 (in_state sw_mod_name_end_blank _ p s h), h.1)
  step_in-Inv sw_mod_block c k p s l h =
      step_block-Inv c k p h.0 h.1 (in_state sw_mod_block _ p s h)
  step_in-Inv sw_mod_block_end c k p s l h = absurd h
  step_in-Inv sw_command c k p s l h = elim (Bool-cases (is_blank c)) [
    | inl e ↦ rw e (
        Ensures-mono env (Worded env (record p { state = sw_command_blank })) _ _
          (end_word-Worded env (record p { state = sw_command_blank }) (omega (arith, h.0, l)) h.2)
          (λ q w.
            in_state sw_command_blank _ q w.0
              (w.1, Ready-Worded env (record p { state = sw_command_blank }) q h.1 w, w.3)))
    | inr e ↦ elim (Bool-cases (c == b';')) [
      | inl d ↦
          rw (e, d)
            (Ensures-mono env _ _ (end_last_word env (record p { state = sw_command_end }))
              (end_last_word-Done env (record p { state = sw_command_end }) (omega (arith, h.0, l))
                h.1 h.2)
              (λ q w. in_state sw_mod_block _ q w.0 (w.1, w.2)))
      | inr d ↦
          rw (e, d)
            (ground (
              arith,
              put_key-Inv c (run_length k c) p (omega (arith, h.0, l)),
              in_state sw_command (run_length k c) (record p { key = p.key ++ c ∷ [] }) s,
              length-append p.key (c ∷ []),
              run_length-suc c k e d,
              h,
            ))
    ]
  ]
  step_in-Inv sw_command_end c k p s l h = absurd h
  step_in-Inv sw_command_blank c k p s l h = ground (
    arith,
    put_key-Inv c (run_length k c) (record p { state = sw_command }),
    in_state sw_command_blank (run_length k c) p s h,
    length-append p.key (c ∷ []),
    run_length-suc c k,
    h,
    command_end-Done env (record p { state = sw_command_end }) h.1 h.2,
  )
