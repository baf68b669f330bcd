-- ===== src/Conf/Lines.antt =====
-- The line that an error names (`line` in src/conf_file.c).
use xpipe.Base.{
  count, ℕ, ◌+◌, [], ◌∷◌, ◌++◌, Option, none, some, Bytes, ◌≡◌, refl, ap, subst, arith, ◌==◌,
  if◌then◌else◌, Option-cases, inl, inr,
}
use xpipe.Xstring.{lf}
use xpipe.DynamicArray.{DynamicArray, dynamic_array_create}
use xpipe.Conf.Commands.{word}
use xpipe.Conf.Lookup.{Command, conf_file_get_sys_mod, create_conf, set_command}
use xpipe.Conf.Settings.{string_size, Args, Module, Env, Outcome, ok, err, fault}
use xpipe.Conf.Parser.{
  State, Parser, Step, next, fail, bad, and_then, settled, put_key, end_key, mod_name_end, opened,
  push_arg, make_room, copy_key, command_end, run_command, new_args, start_command, end_name,
  end_word, end_last_word, step_block, step_in, count_line, step, run, sw_out, sw_comment,
  sw_comment_end, sw_mod_name, sw_mod_name_end, sw_mod_name_end_blank, sw_mod_block,
  sw_mod_block_end, sw_command, sw_command_blank, sw_command_end,
}

module _ (env : Env) where
  -- the step goes on or fails on line `n`
  abbrev OnLine : ℕ → Step env → Type 0
  OnLine n (next q) = q.line ≡ n
  OnLine n (fail q) = q.line ≡ n
  OnLine n bad = Unit {0}

  OnLine-and_then :
      (n : ℕ) (r : Step env) (k : Parser env → Step env)
      → OnLine n r
      → ((q : Parser env) → q.line ≡ n → OnLine n (k q))
      → OnLine n (and_then env r k)
  OnLine-and_then n (next q) k h f = f q h
  OnLine-and_then n (fail q) k h f = h
  OnLine-and_then n bad k h f = h

  settled-OnLine : (p : Parser env) (o : Outcome env) → OnLine p.line (settled env p o)
  settled-OnLine p (ok s) = refl
  settled-OnLine p (err s) = refl
  settled-OnLine p fault = tt

  put_key-OnLine : (c : ℕ) (p : Parser env) → OnLine p.line (put_key env c p)
  unfolding put_key
  put_key-OnLine c p = ground arith

  end_key-OnLine : (p : Parser env) → OnLine p.line (end_key env p)
  unfolding end_key
  end_key-OnLine p = ground arith

  mod_name_end-OnLine : (p : Parser env) → OnLine p.line (mod_name_end env p)
  unfolding mod_name_end opened
  mod_name_end-OnLine p = elim (Option-cases (conf_file_get_sys_mod p.key)) [
    | inl e ↦ rw (e, mod_name_end) refl
    | inr (m, e) ↦
        rw (e, mod_name_end)
          (OnLine-and_then p.line _ (opened env)
            (settled-OnLine (record p { mod_of = some m }) (create_conf env m p.settings))
            (λ q h. h))
  ]

  make_room-OnLine : (a : Args) (p : Parser env) → OnLine p.line (make_room env a p)
  unfolding make_room
  make_room-OnLine a p = ground arith

  copy_key-OnLine : (p : Parser env) → OnLine p.line (copy_key env p)
  unfolding copy_key
  copy_key-OnLine p = ground arith

  push_arg-OnLine : (p : Parser env) → OnLine p.line (push_arg env p)
  unfolding push_arg
  push_arg-OnLine p = elim (Option-cases p.cmd_args) [
    | inl e ↦ rw (e, push_arg) tt
    | inr (a, e) ↦
        rw (e, push_arg)
          (OnLine-and_then p.line (make_room env a p) (copy_key env) (make_room-OnLine a p)
            (λ q h. subst (λ n. OnLine n (copy_key env q)) h (copy_key-OnLine q)))
  ]

  run_command-OnLine :
      (p : Parser env) (a : Args) (m : Module) (c : Option Command)
      → OnLine p.line (run_command env p a m c)
  unfolding run_command
  run_command-OnLine p a m none = refl
  run_command-OnLine p a m (some c) = settled-OnLine p (set_command env c a m p.settings)

  new_args-OnLine :
      (p : Parser env) (r : Option DynamicArray × env.allocator.Pool)
      → OnLine p.line (new_args env p r)
  unfolding new_args
  new_args-OnLine p (none, pool) = refl
  new_args-OnLine p (some a, pool) = refl

  command_end-OnLine : (p : Parser env) → OnLine p.line (command_end env p)
  unfolding command_end
  command_end-OnLine p = elim (Option-cases p.cmd_args) [
    | inl e ↦ rw (e, command_end) tt
    | inr (a, e) ↦ elim (Option-cases (word a 0)) [
      | inl k ↦ rw (e, command_end) (rw k tt)
      | inr (name, k) ↦ elim (Option-cases p.mod_of) [
        | inl u ↦ rw (e, command_end) (rw k (rw u tt))
        | inr (m, u) ↦
            rw (e, command_end)
              (rw k (rw u (run_command-OnLine (record p { state = sw_mod_block }) a m _)))
      ]
    ]
  ]

  start_command-OnLine : (c : ℕ) (p : Parser env) → OnLine p.line (start_command env c p)
  unfolding start_command
  start_command-OnLine c p =
      OnLine-and_then p.line (put_key env c (record p { state = sw_command })) _
        (put_key-OnLine c (record p { state = sw_command }))
        (λ q h.
          subst
            (λ n.
              OnLine n (
                new_args env q (dynamic_array_create env.allocator 10 string_size q.settings.pool)))
            h (new_args-OnLine q _))

  end_name-OnLine : (p : Parser env) → OnLine p.line (end_name env p)
  unfolding end_name
  end_name-OnLine p =
      OnLine-and_then p.line (end_key env p) (mod_name_end env) (end_key-OnLine p)
        (λ q h. subst (λ n. OnLine n (mod_name_end env q)) h (mod_name_end-OnLine q))

  end_word-OnLine : (p : Parser env) → OnLine p.line (end_word env p)
  unfolding end_word
  end_word-OnLine p =
      OnLine-and_then p.line (end_key env p) (push_arg env) (end_key-OnLine p)
        (λ q h. subst (λ n. OnLine n (push_arg env q)) h (push_arg-OnLine q))

  end_last_word-OnLine : (p : Parser env) → OnLine p.line (end_last_word env p)
  unfolding end_last_word
  end_last_word-OnLine p =
      OnLine-and_then p.line (end_word env p) (command_end env) (end_word-OnLine p)
        (λ q h. subst (λ n. OnLine n (command_end env q)) h (command_end-OnLine q))

  step_block-OnLine : (c : ℕ) (p : Parser env) → OnLine p.line (step_block env c p)
  unfolding step_block
  step_block-OnLine c p = ground (arith, start_command-OnLine c p)

  step_in-OnLine : (s : State) (c : ℕ) (p : Parser env) → OnLine p.line (step_in env s c p)
  unfolding step_in
  step_in-OnLine sw_out c p = ground (arith, put_key-OnLine c (record p { state = sw_mod_name }))
  step_in-OnLine sw_comment c p = ground arith
  step_in-OnLine sw_comment_end c p = refl
  step_in-OnLine sw_mod_name c p = ground (
    arith,
    put_key-OnLine c p,
    end_name-OnLine (record p { state = sw_mod_name_end_blank }),
    end_name-OnLine (record p { state = sw_mod_block }),
    end_name-OnLine (record p { old_state = sw_mod_name_end_blank; state = sw_comment }),
  )
  step_in-OnLine sw_mod_name_end c p = mod_name_end-OnLine p
  step_in-OnLine sw_mod_name_end_blank c p = ground (arith, step_block-OnLine c p)
  step_in-OnLine sw_mod_block c p = step_block-OnLine c p
  step_in-OnLine sw_mod_block_end c p = refl
  step_in-OnLine sw_command c p = ground (
    arith,
    put_key-OnLine c p,
    end_word-OnLine (record p { state = sw_command_blank }),
    end_last_word-OnLine (record p { state = sw_command_end }),
  )
  step_in-OnLine sw_command_end c p = command_end-OnLine p
  step_in-OnLine sw_command_blank c p = ground (
    arith,
    put_key-OnLine c (record p { state = sw_command }),
    command_end-OnLine (record p { state = sw_command_end }),
  )

  -- the run goes on behind all bytes, or failed at byte `c` behind `read`
  abbrev pub LineCounted : Parser env → Bytes → Step env → Type 0
  LineCounted p cs (next q) = q.line ≡ p.line + count lf cs
  LineCounted p cs (fail q) =
      (read : Bytes) × (c : ℕ) × (rest : Bytes) × (cs ≡ read ++ c ∷ rest)
      × (q.line ≡ p.line + count lf read)
  LineCounted p cs bad = Unit {0}

  LineCounted-cons :
      (c : ℕ) (cs : Bytes) (p q : Parser env) (r : Step env)
      → q.line ≡ p.line + (if c == lf then 1 else 0)
      → LineCounted q cs r
      → LineCounted p (c ∷ cs) r
  LineCounted-cons c cs p q (next t) e h = omega arith
  LineCounted-cons c cs p q (fail t) e (read, d, rest, k, h) =
      (c ∷ read, d, rest, ap (◌∷◌ c) k, omega arith)
  LineCounted-cons c cs p q bad e h = tt

  -- After some bytes the parser is on the line that the newlines among them give, and an error is
  -- reported on the line of the byte that caused it: one more than the newlines in front of it.
  pub run-LineCounted : (cs : Bytes) (p : Parser env) → LineCounted p cs (run env cs p)
  unfolding run step
  run-LineCounted [] p = omega arith
  run-LineCounted (c ∷ cs) p =
      through (λ q. run-LineCounted cs q) (step_in env p.state c p) (step_in-OnLine p.state c p)
    where
      through :
          ((q : Parser env) → LineCounted q cs (run env cs q))
          → (r : Step env) → OnLine p.line r
          → LineCounted p (c ∷ cs) (elim (and_then env r (count_line env c)) [
            | next q ↦ run env cs q
            | fail q ↦ fail q
            | bad ↦ bad
          ])
      through ih (next q) h =
          let q' = if c == lf then record q { line = q.line + 1 } else q in
          LineCounted-cons c cs p q' (run env cs q') (ground arith) (ih q')
      through ih (fail q) h = ([], c, cs, refl, omega arith)
      through ih bad h = tt
