-- ===== src/Conf/Parser.antt =====
-- `conf_file_parser` (src/conf_file.c): a state machine over the bytes of the file.
use xpipe.Base.{
  mul32, ℕ, ◌+◌, Bool, not, ◌||◌, List, [], ◌∷◌, ◌++◌, Option, none, some, Bytes, ltb, ◌==◌,
  if◌then◌else◌, length,
}
use xpipe.Xstring.{lf, is_letter, is_digit, is_blank}
use xpipe.DynamicArray.{mul64, dynamic_array_create, DynamicArray}
use xpipe.Conf.Settings.{Env, Module, Settings, Outcome, ok, err, fault, Args, string_size}
use xpipe.Conf.Commands.{word, taking}
use xpipe.Conf.Lookup.{
  Command, conf_file_get_sys_mod, conf_file_get_command, conf_file_get_global_cmd, create_conf,
  set_command,
}

pub data State : Type 0 where
  sw_out sw_comment sw_comment_end sw_mod_name sw_mod_name_end sw_mod_name_end_blank : State
  sw_mod_block sw_mod_block_end sw_command sw_command_blank sw_command_end : State

-- sizeof(key)
abbrev pub key_size : ℕ
key_size = 256

abbrev pub is_name : ℕ → Bool
is_name c = is_letter c || is_digit c || c == b'_' || c == b'-'

module _ (env : Env) where
  -- The locals of `conf_file_parser`, and the settings. `key` holds the first `k` bytes of the
  -- array; `mod` and `cmd_args` are `none` until they are set.
  pub record Parser : Type 0 where
    pub state : State
    pub old_state : State
    pub key : Bytes
    pub line : ℕ
    pub mod_of : Option Module
    pub cmd_args : Option Args
    pub settings : Settings env

  -- An iteration goes on, or returns CONF_ERROR, or writes past `key` or through a pointer that
  -- is not set.
  pub data Step : Type 0 where
    next : Parser → Step
    fail : Parser → Step
    bad : Step

  abbrev pub and_then : Step → (Parser → Step) → Step
  and_then (next p) k = k p
  and_then (fail p) k = fail p
  and_then bad k = bad

  -- `key[k++] = ch`
  unfoldable pub put_key : ℕ → Parser → Step
  put_key c p =
      if ltb (length p.key) key_size then next (record p { key = p.key ++ c ∷ [] }) else bad

  -- `key[k] = '\0'`
  unfoldable pub end_key : Parser → Step
  end_key p = if ltb (length p.key) key_size then next p else bad

  -- what a `set` or `create_conf` function returned
  abbrev pub settled : Parser → Outcome env → Step
  settled p (ok s) = next (record p { settings = s })
  settled p (err s) = fail (record p { settings = s })
  settled p fault = bad

  unfoldable pub opened : Parser → Step
  opened p =
      next
        (record p { key = []; settings = record (p.settings) { blocks = p.settings.blocks + 1 } })

  -- `case sw_mod_name_end`
  unfoldable pub mod_name_end : Parser → Step
  mod_name_end p = elim (conf_file_get_sys_mod p.key) [
    | none ↦ fail p
    | some m ↦
        and_then (settled (record p { mod_of = some m }) (create_conf env m p.settings)) opened
  ]

  -- the part of `dynamic_array_push` on `cmd_args` that makes room
  unfoldable pub make_room : Args → Parser → Step
  make_room a p =
      let (got, s) = taking env (mul64 2 (mul64 string_size a.nalloc)) p.settings in
      if not (length a.words == a.nalloc)
      then next p
      else if got
      then next
          (record p { cmd_args = some (record a { nalloc = mul32 a.nalloc 2 }); settings = s })
      else fail (record p { settings = s })

  -- the copy of the key into the pool, for the new place of `cmd_args`
  unfoldable pub copy_key : Parser → Step
  copy_key p = elim p.cmd_args [
    | none ↦ bad
    | some a ↦
        let (got, s) = taking env (length p.key + 1) p.settings in
        if got
        then next (record p {
          key = [];
          cmd_args = some (record a { words = a.words ++ p.key ∷ [] });
          settings = s;
        })
        else fail (record p { settings = s })
  ]

  -- `dynamic_array_push` on `cmd_args`, and the copy of the key
  unfoldable pub push_arg : Parser → Step
  push_arg p = elim p.cmd_args [ none ↦ bad | some a ↦ and_then (make_room a p) copy_key ]

  unfoldable pub run_command : Parser → Args → Module → Option Command → Step
  run_command p a m none = fail p
  run_command p a m (some c) = settled p (set_command env c a m p.settings)

  -- a command of the module goes before one that stands everywhere
  abbrev pub which : Module → Bytes → Option Command
  which m name = elim (conf_file_get_command m name) [
    | none ↦ conf_file_get_global_cmd name
    | some c ↦ some c
  ]

  -- `CMD_END`
  unfoldable pub command_end : Parser → Step
  command_end p =
      let p' = record p { state = sw_mod_block } in
      elim p.cmd_args [
        | none ↦ bad
        | some a ↦ elim (word a 0) [
          | none ↦ bad
          | some name ↦ elim p.mod_of [ none ↦ bad | some m ↦ run_command p' a m (which m name) ]
        ]
      ]

  unfoldable pub new_args : Parser → Option DynamicArray × env.allocator.Pool → Step
  new_args p (none, pool) = fail (record p { settings = record (p.settings) { pool = pool } })
  new_args p (some a, pool) = next (record p {
    cmd_args = some (record { words = []; nalloc = a.nalloc });
    settings = record (p.settings) { pool = pool };
  })

  -- a command begins
  unfoldable pub start_command : ℕ → Parser → Step
  start_command c p =
      and_then (put_key c (record p { state = sw_command }))
        (λ q. new_args q (dynamic_array_create env.allocator 10 string_size q.settings.pool))

  -- a module's name, a word, the last word of a command end
  unfoldable pub end_name : Parser → Step
  end_name p = and_then (end_key p) mod_name_end

  unfoldable pub end_word : Parser → Step
  end_word p = and_then (end_key p) push_arg

  unfoldable pub end_last_word : Parser → Step
  end_last_word p = and_then (end_word p) command_end

  -- `case sw_mod_block`
  unfoldable pub step_block : ℕ → Parser → Step
  step_block c p =
      if c == b'#'
      then next (record p { old_state = sw_mod_block; state = sw_comment })
      else if is_blank c
      then next p
      else if is_letter c
      then start_command c p
      else if c == b'}'
      then next (record p { state = sw_out })
      else fail p

  -- the `switch`, at the byte `c`
  unfoldable pub step_in : State → ℕ → Parser → Step
  step_in sw_out c p =
      if c == b'#'
      then next (record p { old_state = sw_out; state = sw_comment })
      else if is_letter c
      then put_key c (record p { state = sw_mod_name })
      else if not (is_blank c)
      then fail p
      else next p
  step_in sw_comment c p = next (if c == lf then record p { state = p.old_state } else p)
  step_in sw_comment_end c p = next (record p { state = p.old_state })
  step_in sw_mod_name c p =
      if is_name c
      then put_key c p
      else if is_blank c
      then end_name (record p { state = sw_mod_name_end_blank })
      else if c == b'{'
      then end_name (record p { state = sw_mod_block })
      else if c == b'#'
      then end_name (record p { old_state = sw_mod_name_end_blank; state = sw_comment })
      else fail p
  step_in sw_mod_name_end c p = mod_name_end p
  step_in sw_mod_name_end_blank c p =
      if c == b'{'
      then next (record p { state = sw_mod_block })
      else if not (is_blank c)
      then fail p
      else step_block c p
  step_in sw_mod_block c p = step_block c p
  step_in sw_mod_block_end c p = next (record p { state = sw_out })
  step_in sw_command c p =
      if is_blank c
      then end_word (record p { state = sw_command_blank })
      else if c == b';'
      then end_last_word (record p { state = sw_command_end })
      else put_key c p
  step_in sw_command_end c p = command_end p
  step_in sw_command_blank c p =
      if c == b';'
      then command_end (record p { state = sw_command_end })
      else if is_blank c
      then next p
      else put_key c (record p { state = sw_command })

  -- the end of an iteration: `if (ch == LF) line++`
  abbrev pub count_line : ℕ → Parser → Step
  count_line c p = next (if c == lf then record p { line = p.line + 1 } else p)

  unfoldable pub step : ℕ → Parser → Step
  step c p = and_then (step_in p.state c p) (count_line c)

  -- the `for` over the bytes of one read
  unfoldable pub run : Bytes → Parser → Step
  run [] p = next p
  run (c ∷ cs) p = elim (step c p) [ next q ↦ run cs q | fail q ↦ fail q | bad ↦ bad ]

  -- what `conf_file_parser` returns, CONF_OK or CONF_ERROR, with the parser behind it
  pub data Parsed : Type 0 where
    conf_ok conf_error : Parser → Parsed
    undefined : Parsed

  -- behind the last read
  unfoldable pub at_end : State → Parser → Parsed
  at_end sw_out p = conf_ok p
  at_end sw_mod_block_end p = conf_ok p
  at_end _ p = conf_error p

  -- What the calls of `file_read` give: bytes, or `none` for an error. No bytes are the end of
  -- the file, and behind the last entry the file has ended too.
  unfoldable pub parse_reads : List (Option Bytes) → Parser → Parsed
  parse_reads [] p = at_end p.state p
  parse_reads (none ∷ rs) p = conf_error p
  parse_reads (some [] ∷ rs) p = at_end p.state p
  parse_reads (some (c ∷ cs) ∷ rs) p = elim (run (c ∷ cs) p) [
    | next q ↦ parse_reads rs q
    | fail q ↦ conf_error q
    | bad ↦ undefined
  ]

  abbrev pub initial : Settings env → Parser
  initial s = record {
    state = sw_out;
    old_state = sw_out;
    key = [];
    line = 1;
    mod_of = none;
    cmd_args = none;
    settings = s;
  }
