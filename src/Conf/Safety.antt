-- ===== src/Conf/Safety.antt =====
-- The parser of src/conf_file.c stays inside `key` and follows no pointer that is not set, as long
-- as no run of bytes without blanks and semicolons is longer than 255.
use xpipe.Base.{
  ℕ, ◌+◌, ◌≤◌, List, [], ◌∷◌, ◌++◌, Option, none, some, Bytes, ◌≡◌, refl, ◌∙◌, arith, ◌==◌,
  Option-cases, Bool-cases, inl, inr, length,
}
use xpipe.DynamicArray.{DynamicArray, dynamic_array_create}
use xpipe.DynamicArray.{mul64}
use xpipe.Conf.Settings.{Env, Module, Outcome, ok, err, fault, Args, string_size}
use xpipe.Conf.Commands.{word, taking}
use xpipe.Conf.Lookup.{Command, conf_file_get_sys_mod, create_conf, set_command}
use xpipe.Conf.Handlers.{Allowed, IsSafe, create_conf-IsSafe, which-Allowed, set_command-IsSafe}
use xpipe.Conf.Parser.{
  Parser, and_then, settled, put_key, end_key, mod_name_end, opened, push_arg, make_room, copy_key,
  command_end, run_command, new_args, start_command, end_name, end_word, end_last_word, which,
  sw_mod_block, sw_command,
}
use xpipe.Conf.Invariant.{
  Ready, HasArgs, HasWord, Ensures, Ensures-and_then, Ensures-mono, HasConf-main,
}

module _ (env : Env) where
  -- `q` is `p` with the key emptied, in a module that is ready
  abbrev pub Named : Parser env → Parser env → Type 0
  Named p q = (q.state ≡ p.state) × (q.old_state ≡ p.old_state) × (q.key ≡ []) × Ready env q

  pub mod_name_end-Named : (p : Parser env) → Ensures env (Named p) (mod_name_end env p)
  unfolding mod_name_end opened
  mod_name_end-Named p = elim (Option-cases (conf_file_get_sys_mod p.key)) [
    | inl e ↦ rw (e, mod_name_end) tt
    | inr (m, e) ↦
        rw (e, mod_name_end)
          (created m (create_conf env m p.settings) (create_conf-IsSafe env m p.settings))
  ]
    where
      created :
          (m : Module) (o : Outcome env)
          → IsSafe env m o
          → Ensures env
              (Named p)
              (and_then env (settled env (record p { mod_of = some m }) o) (opened env))
      created m (ok s) h = (refl, refl, refl, (m, refl, HasConf-main env m s _ refl refl h))
      created m (err s) h = tt
      created m fault h = absurd h

  pub end_name-Named :
      (p : Parser env) → length p.key ≤ 255 → Ensures env (Named p) (end_name env p)
  unfolding end_name end_key
  end_name-Named p h = ground (arith, mod_name_end-Named p)

  -- `q` is `p` with one word more
  abbrev pub Worded : Parser env → Parser env → Type 0
  Worded p q =
      (q.state ≡ p.state)
      × (q.key ≡ [])
      × (q.mod_of ≡ p.mod_of)
      × HasWord env q
      × (q.settings.main ≡ p.settings.main)
      × (q.settings.net ≡ p.settings.net)

  word-append :
      (ws : List Bytes) (w : Bytes) (n : ℕ)
      → (v : Bytes) × (word (record { words = ws ++ w ∷ []; nalloc = n }) 0 ≡ some v)
  word-append [] w n = (w, refl)
  word-append (v ∷ ws) w n = (v, refl)

  -- `q` is `p` with room for a word more
  abbrev Roomy : Parser env → Parser env → Type 0
  Roomy p q =
      (q.state ≡ p.state)
      × (q.mod_of ≡ p.mod_of)
      × HasArgs env q
      × (q.settings.main ≡ p.settings.main)
      × (q.settings.net ≡ p.settings.net)

  make_room-Roomy :
      (a : Args) (p : Parser env) → p.cmd_args ≡ some a → Ensures env (Roomy p) (make_room env a p)
  unfolding make_room
  make_room-Roomy a p e = elim (Bool-cases (length a.words == a.nalloc)) [
    | inr k ↦ rw k (refl, refl, (a, e), refl, refl)
    | inl k ↦ elim (Bool-cases ((taking env (mul64 2 (mul64 string_size a.nalloc)) p.settings).0)) [
      | inl u ↦ rw (k, u) (refl, refl, (_, refl), refl, refl)
      | inr u ↦ rw (k, u) tt
    ]
  ]

  copy_key-Worded : (p q : Parser env) → Roomy p q → Ensures env (Worded p) (copy_key env q)
  unfolding copy_key
  copy_key-Worded p q (st, m, (a, e), h, k) =
      elim (Bool-cases ((taking env (length q.key + 1) q.settings).0)) [
        | inl u ↦
            let (w, at) = word-append a.words q.key a.nalloc in
            rw (e, copy_key) (rw u (st, refl, m, (_, w, refl, at), h, k))
        | inr u ↦ rw (e, copy_key) (rw u tt)
      ]

  push_arg-Worded : (p : Parser env) → HasArgs env p → Ensures env (Worded p) (push_arg env p)
  unfolding push_arg
  push_arg-Worded p (a, e) =
      rw (e, push_arg)
        (Ensures-and_then env (Roomy p) (Worded p) (make_room env a p) (copy_key env)
          (make_room-Roomy a p e) (copy_key-Worded p))

  pub Ready-Worded : (p q : Parser env) → Ready env p → Worded p q → Ready env q
  Ready-Worded p q (m, e, h) w = (m, w.2 ∙ e, HasConf-main env m p.settings q.settings w.4 w.5 h)

  -- the command is done
  abbrev pub Done : Parser env → Parser env → Type 0
  Done p q = (q.state ≡ sw_mod_block) × (q.key ≡ p.key) × Ready env q

  pub command_end-Done :
      (p : Parser env) → Ready env p → HasWord env p → Ensures env (Done p) (command_end env p)
  unfolding command_end run_command
  command_end-Done p (m, e, h) (a, w, k, u) =
      rw (k, command_end) (rw u (rw e (ran (which env m w) (which-Allowed env m w))))
    where
      done :
          (o : Outcome env)
          → IsSafe env m o
          → Ensures env (Done p) (settled env (record p { state = sw_mod_block }) o)
      done (ok s) g = (refl, refl, (m, e, g))
      done (err s) g = tt
      done fault g = absurd g

      ran :
          (c : Option Command)
          → ((d : Command) → c ≡ some d → Allowed m d)
          → Ensures env (Done p) (run_command env (record p { state = sw_mod_block }) a m c)
      ran none f = tt
      ran (some d) f =
          done (set_command env d a m p.settings)
            (set_command-IsSafe env d a m p.settings (f d refl) h)

  pub end_word-Worded :
      (p : Parser env)
      → length p.key ≤ 255
      → HasArgs env p
      → Ensures env (Worded p) (end_word env p)
  unfolding end_word end_key
  end_word-Worded p h a = ground (arith, push_arg-Worded p a)

  pub end_last_word-Done :
      (p : Parser env)
      → length p.key ≤ 255
      → Ready env p
      → HasArgs env p
      → Ensures env
          (λ q. (q.state ≡ sw_mod_block) × (q.key ≡ []) × Ready env q)
          (end_last_word env p)
  unfolding end_last_word
  end_last_word-Done p h r a =
      Ensures-and_then env (Worded p) _ (end_word env p) (command_end env) (end_word-Worded p h a)
        λ q w.
          Ensures-mono env (Done q) _ (command_end env q)
            (command_end-Done q (Ready-Worded p q r w) w.3) (λ t d. (d.0, d.1 ∙ w.1, d.2))

  pub start_command-Inv :
      (c k : ℕ) (p : Parser env)
      → p.key ≡ []
      → Ready env p
      → Ensures env
          (λ q. (q.state ≡ sw_command) × (length q.key ≡ 1) × Ready env q × HasArgs env q)
          (start_command env c p)
  unfolding start_command put_key new_args
  start_command-Inv c k p e r =
      rw e (new (dynamic_array_create env.allocator 10 string_size p.settings.pool))
    where
      new :
          (d : Option DynamicArray × env.allocator.Pool)
          → Ensures env
              (λ q. (q.state ≡ sw_command) × (length q.key ≡ 1) × Ready env q × HasArgs env q)
              (new_args env (record p { state = sw_command; key = c ∷ [] }) d)
      new (none, pool) = tt
      new (some a, pool) =
          (refl, refl, (r.0, r.1, HasConf-main env r.0 p.settings _ refl refl r.2), (_, refl))
