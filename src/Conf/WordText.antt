-- ===== src/Conf/WordText.antt =====
-- The bytes of a command, one by one, in the state machine of src/conf_file.c.
use xpipe.Base.{
  ℕ, ◌+◌, ◌≤◌, Bool, true, false, not, ◌&&◌, List, [], ◌∷◌, ◌++◌, Bytes, ◌≡◌, refl, ◌∙◌, arith,
  ◌==◌, Option-cases, inl, inr, length, length-append, append_assoc, append-nil,
}
use xpipe.Xstring.{is_blank, lf}
use xpipe.Conf.Settings.{Env, Args}
use xpipe.Conf.Parser.{
  State, Parser, Step, next, fail, bad, and_then, put_key, end_key, push_arg, make_room, copy_key,
  command_end, end_word, end_last_word, step_in, count_line, step, run, sw_command,
  sw_command_blank, sw_command_end,
}

abbrev pub in_word : ℕ → Bool
in_word c = not (is_blank c) && not (c == b';')

-- a blank in a line
abbrev pub in_gap : ℕ → Bool
in_gap c = is_blank c && not (c == lf)

abbrev pub All : (ℕ → Bool) → Bytes → Type 0
All f [] = Unit
All f (c ∷ cs) = (f c ≡ true) × All f cs

abbrev pub IsWord : Bytes → Type 0
IsWord [] = ⊥
IsWord (c ∷ cs) = All in_word (c ∷ cs) × (length (c ∷ cs) ≤ 255)

abbrev pub IsGap : Bytes → Type 0
IsGap [] = ⊥
IsGap (c ∷ cs) = All in_gap (c ∷ cs)

-- what stands behind the first word: gaps and words, perhaps blanks, and the semicolon
abbrev pub rest_text : List (Bytes × Bytes) → Bytes → Bytes
rest_text [] end = end ++ (b';' ∷ [])
rest_text ((gap, w) ∷ ws) end = gap ++ (w ++ rest_text ws end)

abbrev pub AreWords : List (Bytes × Bytes) → Type 0
AreWords [] = Unit
AreWords ((gap, w) ∷ ws) = IsGap gap × IsWord w × AreWords ws

module _ (env : Env) where
  -- the word is stored
  abbrev pub store : State → Bytes → Parser env → Step env
  store s w p = push_arg env (record p { key = w; state = s })

  -- what reading the words is to do: store each of them in turn, and then run the command
  abbrev pub read_words : Bytes → List (Bytes × Bytes) → Bytes → Parser env → Step env
  read_words w [] [] p = and_then env (store sw_command_end w p) (command_end env)
  read_words w [] (c ∷ cs) p =
      and_then env (store sw_command_blank w p)
        (λ q. command_end env (record q { state = sw_command_end }))
  read_words w ((gap, v) ∷ ws) end p =
      and_then env (store sw_command_blank w p) (read_words v ws end)

  -- where the step goes on, the parser has the property
  abbrev pub Yields : (Parser env → Type 0) → Step env → Type 0
  Yields P (next q) = P q
  Yields P (fail q) = Unit
  Yields P bad = Unit

  Yields-and_then :
      (P Q : Parser env → Type 0) (r : Step env) (k : Parser env → Step env)
      → Yields P r
      → ((q : Parser env) → P q → Yields Q (k q))
      → Yields Q (and_then env r k)
  Yields-and_then P Q (next q) k h f = f q h
  Yields-and_then P Q (fail q) k h f = tt
  Yields-and_then P Q bad k h f = tt

  copy_key-Yields :
      (s : State) (p : Parser env)
      → p.state ≡ s
      → Yields (λ q. (q.state ≡ s) × (q.key ≡ [])) (copy_key env p)
  unfolding copy_key
  copy_key-Yields s p e = ground (arith, e)

  make_room-Yields :
      (a : Args) (p : Parser env) → Yields (λ q. q.state ≡ p.state) (make_room env a p)
  unfolding make_room
  make_room-Yields a p = ground arith

  pub push_arg-Yields :
      (p : Parser env) → Yields (λ q. (q.state ≡ p.state) × (q.key ≡ [])) (push_arg env p)
  unfolding push_arg
  push_arg-Yields p = elim (Option-cases p.cmd_args) [
    | inl e ↦ rw (e, push_arg) tt
    | inr (a, e) ↦
        rw (e, push_arg)
          (Yields-and_then (λ q. q.state ≡ p.state) _ (make_room env a p) (copy_key env)
            (make_room-Yields a p) (λ q h. copy_key-Yields p.state q h))
  ]

  -- one byte of a word, one blank behind one
  word_byte :
      (c : ℕ) (p : Parser env)
      → in_word c ≡ true
      → length p.key ≤ 255
      → step env c (record p { state = sw_command })
        ≡ next (record p { state = sw_command; key = p.key ++ c ∷ [] })
  unfolding step step_in put_key is_blank
  word_byte c p h l = ground arith

  gap_byte :
      (c : ℕ) (p : Parser env)
      → in_gap c ≡ true
      → step env c (record p { state = sw_command_blank })
        ≡ next (record p { state = sw_command_blank })
  unfolding step step_in is_blank
  gap_byte c p h = ground arith

  pub run-cons :
      (c : ℕ) (cs : Bytes) (p : Parser env) (r : Step env)
      → step env c p ≡ r
      → run env (c ∷ cs) p ≡ and_then env r (run env cs)
  unfolding run
  run-cons c cs p (next q) e = rw (e, run) refl
  run-cons c cs p (fail q) e = rw (e, run) refl
  run-cons c cs p bad e = rw (e, run) refl

  pub run_word :
      (cs : Bytes) (p : Parser env)
      → All in_word cs
      → length p.key + length cs ≤ 255
      → run env cs (record p { state = sw_command })
        ≡ next (record p { state = sw_command; key = p.key ++ cs })
  unfolding run
  run_word [] p h l = rw (append-nil p.key) refl
  run_word (c ∷ cs) p h l =
      run-cons c cs (record p { state = sw_command }) _ (word_byte c p h.0 (omega arith))
      ∙ run_word cs (record p { key = p.key ++ c ∷ [] }) h.1
          (omega (arith, length-append p.key (c ∷ [])))
      ∙ rw (append_assoc p.key (c ∷ []) cs) refl

  pub run_gap :
      (cs : Bytes) (p : Parser env)
      → All in_gap cs
      → run env cs (record p { state = sw_command_blank })
        ≡ next (record p { state = sw_command_blank })
  unfolding run
  run_gap [] p h = refl
  run_gap (c ∷ cs) p h =
      run-cons c cs (record p { state = sw_command_blank }) _ (gap_byte c p h.0) ∙ run_gap cs p h.1

  pub count_line-not_lf :
      (c : ℕ) (r : Step env) → (c == lf) ≡ false → and_then env r (count_line env c) ≡ r
  count_line-not_lf c (next q) h = rw h refl
  count_line-not_lf c (fail q) h = refl
  count_line-not_lf c bad h = refl

  gap_blank : (c : ℕ) → in_gap c ≡ true → (is_blank c ≡ true) × ((c == lf) ≡ false)
  gap_blank c h = ground arith

  end_key_fits : (p : Parser env) → length p.key ≤ 255 → end_key env p ≡ next p
  unfolding end_key
  end_key_fits p l = ground (arith, l)

  end_word_fits : (p : Parser env) → length p.key ≤ 255 → end_word env p ≡ push_arg env p
  unfolding end_word
  end_word_fits p l = rw (end_key_fits p l) refl

  -- the first blank behind a word
  pub first_gap_byte :
      (c : ℕ) (w : Bytes) (p : Parser env)
      → in_gap c ≡ true
      → length w ≤ 255
      → step env c (record p { state = sw_command; key = w }) ≡ store sw_command_blank w p
  unfolding step step_in
  first_gap_byte c w p h l =
      let (blank, not_lf) = gap_blank c h in
      rw (blank, end_word_fits (record p { state = sw_command_blank; key = w }) l)
        (count_line-not_lf c (store sw_command_blank w p) not_lf)

  pub semicolon_behind_word :
      (w : Bytes) (p : Parser env)
      → length w ≤ 255
      → step env b';' (record p { state = sw_command; key = w })
        ≡ and_then env (store sw_command_end w p) (command_end env)
  unfolding step step_in end_last_word is_blank
  semicolon_behind_word w p l =
      rw (end_word_fits (record p { state = sw_command_end; key = w }) l)
        (count_line-not_lf b';' _ refl)

  pub semicolon_behind_gap :
      (p : Parser env)
      → step env b';' (record p { state = sw_command_blank })
        ≡ command_end env (record p { state = sw_command_end })
  unfolding step step_in
  semicolon_behind_gap p = count_line-not_lf b';' _ refl
