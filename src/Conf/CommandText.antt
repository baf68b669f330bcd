-- ===== src/Conf/CommandText.antt =====
-- How `conf_file_parser` (src/conf_file.c) reads the text of a command.
use xpipe.Base.{
  ℕ, ◌≤◌, true, false, List, [], ◌∷◌, ◌++◌, Option, none, some, Bytes, ◌≡◌, refl, ap, ◌∙◌, subst,
  arith, ◌==◌, length, length-append, append_assoc,
}
use xpipe.Xstring.{is_blank, is_letter, lf}
use xpipe.Conf.Settings.{Env, string_size}
use xpipe.DynamicArray.{DynamicArray, dynamic_array_create}
use xpipe.Conf.Parser.{
  State, Parser, Step, next, fail, bad, and_then, put_key, new_args, step_block, start_command,
  sw_mod_block, step_in, step, run, sw_command, sw_command_blank,
}
use xpipe.Conf.Reads.{run-append}
use xpipe.Conf.WordText.{
  in_word, in_gap, All, IsWord, rest_text, AreWords, store, read_words, Yields, push_arg-Yields,
  run-cons, run_word, run_gap, count_line-not_lf, first_gap_byte, semicolon_behind_word,
  semicolon_behind_gap,
}

module _ (env : Env) where
  abbrev emptied : State → Parser env → Parser env
  emptied s q = record q { state = s; key = [] }

  emptied_same : (s : State) (q : Parser env) → q.state ≡ s → q.key ≡ [] → emptied s q ≡ q
  emptied_same s q e k = cc

  -- a step that ends a word, and what is done with the rest of the text
  then_same :
      (s : State) (r : Step env) (f g : Parser env → Step env)
      → Yields env (λ q. (q.state ≡ s) × (q.key ≡ [])) r
      → ((q : Parser env) → f (emptied s q) ≡ g (emptied s q))
      → and_then env r f ≡ and_then env r g
  then_same s (next q) f g y h = subst (λ t. f t ≡ g t) (emptied_same s q y.0 y.1) (h q)
  then_same s (fail q) f g y h = refl
  then_same s bad f g y h = refl

  and_then_next : (r : Step env) → and_then env r next ≡ r
  and_then_next (next q) = refl
  and_then_next (fail q) = refl
  and_then_next bad = refl

  run_one : (c : ℕ) (p : Parser env) → run env (c ∷ []) p ≡ step env c p
  unfolding run
  run_one c p = run-cons env c [] p (step env c p) refl ∙ and_then_next (step env c p)

  first_word_byte :
      (c : ℕ) (p : Parser env)
      → in_word c ≡ true
      → p.key ≡ []
      → step env c (record p { state = sw_command_blank })
        ≡ next (record p { state = sw_command; key = p.key ++ c ∷ [] })
  unfolding step step_in put_key is_blank
  first_word_byte c p h k = ground (arith, k)

  -- a word behind a gap
  next_word :
      (d : ℕ) (ds text : Bytes) (p : Parser env)
      → p.key ≡ []
      → IsWord (d ∷ ds)
      → run env (d ∷ (ds ++ text)) (record p { state = sw_command_blank })
        ≡ run env text (record p { state = sw_command; key = p.key ++ d ∷ ds })
  next_word d ds text p k (w, l) =
      let q = record p { key = p.key ++ d ∷ [] } in
      run-cons env d (ds ++ text) _ _ (first_word_byte d p w.0 k)
      ∙ run-append env ds text (record q { state = sw_command })
      ∙ ap (λ r. and_then env r (run env text))
          (run_word env ds q w.1 (ground (arith, k, l, length-append p.key (d ∷ []))))
      ∙ rw (append_assoc p.key (d ∷ []) ds) refl

  -- the text of the words behind the first, that one being read
  run_rest :
      (w : Bytes) (ws : List (Bytes × Bytes)) (end : Bytes) (p : Parser env)
      → length w ≤ 255
      → AreWords ws
      → All in_gap end
      → run env (rest_text ws end) (record p { state = sw_command; key = w })
        ≡ read_words env w ws end p
  run_rest w [] [] p l h g = run_one b';' _ ∙ semicolon_behind_word env w p l
  run_rest w [] (c ∷ cs) p l h g =
      run-cons env c (cs ++ (b';' ∷ [])) _ _ (first_gap_byte env c w p g.0 l)
      ∙ then_same sw_command_blank (store env sw_command_blank w p) _ _
          (push_arg-Yields env (record p { key = w; state = sw_command_blank }))
          (λ q.
            run-append env cs (b';' ∷ []) (emptied sw_command_blank q)
            ∙ ap (λ r. and_then env r (run env (b';' ∷ [])))
                (run_gap env cs (emptied sw_command_blank q) g.1)
            ∙ run_one b';' (emptied sw_command_blank q)
            ∙ semicolon_behind_gap env (emptied sw_command_blank q))
  run_rest w (([], v) ∷ ws) end p l h g = absurd h.0
  run_rest w ((c ∷ cs, []) ∷ ws) end p l h g = absurd h.1
  run_rest w ((c ∷ cs, d ∷ ds) ∷ ws) end p l (a, b, h) g =
      let text = rest_text ws end in
      run-cons env c (cs ++ (d ∷ (ds ++ text))) _ _ (first_gap_byte env c w p a.0 l)
      ∙ then_same sw_command_blank (store env sw_command_blank w p) _ _
          (push_arg-Yields env (record p { key = w; state = sw_command_blank }))
          (λ q.
            run-append env cs (d ∷ (ds ++ text)) (emptied sw_command_blank q)
            ∙ ap (λ r. and_then env r (run env (d ∷ (ds ++ text))))
                (run_gap env cs (emptied sw_command_blank q) a.1)
            ∙ next_word d ds text (emptied sw_command_blank q) refl b
            ∙ run_rest (d ∷ ds) ws end (emptied sw_command_blank q) b.1 h g)

  -- the first byte, which is in the key when the array is created
  abbrev pub name_start : Bytes → Bytes
  name_start [] = []
  name_start (c ∷ cs) = c ∷ []

  -- what a command's text is to do: create the array of its words, store env them in turn, and then
  -- run the command
  abbrev pub read_command : Bytes → List (Bytes × Bytes) → Bytes → Parser env → Step env
  read_command name ws end p =
      and_then env
        (new_args env (record p { state = sw_command; key = name_start name })
          (dynamic_array_create env.allocator 10 string_size p.settings.pool))
        (read_words env name ws end)

  letter_lem :
      (c : ℕ)
      → is_letter c ≡ true
      → ((c == b'#') ≡ false) × (is_blank c ≡ false) × ((c == lf) ≡ false)
  unfolding is_letter is_blank
  letter_lem c h = (ground arith, ground arith, ground arith)

  first_byte :
      (c : ℕ) (p : Parser env)
      → is_letter c ≡ true
      → step env c (record p { state = sw_mod_block; key = [] })
        ≡ new_args env
            (record p { state = sw_command; key = c ∷ [] })
            (dynamic_array_create env.allocator 10 string_size p.settings.pool)
  unfolding step step_in step_block start_command put_key
  first_byte c p h =
      let (hash, blank, not_lf) = letter_lem c h in
      rw (hash, blank, h) (count_line-not_lf env c _ not_lf)

  through_name :
      (c : ℕ) (cs : Bytes) (ws : List (Bytes × Bytes)) (end : Bytes) (p : Parser env)
      (d : Option DynamicArray × env.allocator.Pool)
      → All in_word cs
      → length (c ∷ cs) ≤ 255
      → AreWords ws
      → All in_gap end
      → and_then env
          (new_args env (record p { state = sw_command; key = c ∷ [] }) d)
          (run env (cs ++ rest_text ws end))
        ≡ and_then env
            (new_args env (record p { state = sw_command; key = c ∷ [] }) d)
            (read_words env (c ∷ cs) ws end)
  unfolding new_args
  through_name c cs ws end p (none, pool) w l h g = refl
  through_name c cs ws end p (some a, pool) w l h g =
      let q = record p {
        state = sw_command;
        key = c ∷ [];
        cmd_args = some (record { words = []; nalloc = a.nalloc });
        settings = record (p.settings) { pool = pool };
      } in
      run-append env cs (rest_text ws end) q
      ∙ ap (λ r. and_then env r (run env (rest_text ws end)))
          (run_word env cs q w (omega (arith, l)))
      ∙ run_rest (c ∷ cs) ws end q l h g

  -- Inside a module's block, the text of a command is a name that begins with a letter, words of
  -- at most 255 bytes behind it, each set off by blanks of any number and kind but the newline,
  -- perhaps more of these, and a semicolon. `conf_file_parser` reads it as the name and those
  -- words, however they are spaced: it creates the array of the words, stores each in turn, and
  -- then runs the command.
  pub run-command_text :
      (c : ℕ) (cs : Bytes) (ws : List (Bytes × Bytes)) (end : Bytes) (p : Parser env)
      → is_letter c ≡ true
      → All in_word cs
      → length (c ∷ cs) ≤ 255
      → AreWords ws
      → All in_gap end
      → run env (c ∷ (cs ++ rest_text ws end)) (record p { state = sw_mod_block; key = [] })
        ≡ read_command (c ∷ cs) ws end p
  run-command_text c cs ws end p a w l h g =
      run-cons env c (cs ++ rest_text ws end) _ _ (first_byte c p a)
      ∙ through_name c cs ws end p _ w l h g
