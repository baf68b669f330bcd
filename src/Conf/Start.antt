-- ===== src/Conf/Start.antt =====
-- `conf_file_init`, and `conf_file_parser` as a whole (src/conf_file.c).
use xpipe.Base.{ℕ, List, [], ◌∷◌, Option, none, some, Bytes, null, ◌==◌, if◌then◌else◌}
use xpipe.DynamicArray.{dynamic_array_init, DynamicArray}
use xpipe.Conf.Settings.{Env, File, Settings, Outcome, ok, err, file_size}
use xpipe.Conf.Commands.{
  cmd_daemon_set, cmd_pid_set, cmd_log_set, cmd_listen_set, cmd_connecions_set, cmd_nodelay_set,
  cmd_request_buffer_size_set, pid_named, log_named, log_to, set_logger, full_name, log_level,
}
use xpipe.Conf.Lookup.{
  conf_file_get_sys_mod, conf_file_get_command, conf_file_get_global_cmd, create_conf, set_command,
}
use xpipe.Conf.Parser.{
  run, at_end, step, step_in, step_block, start_command, new_args, end_name, end_word,
  end_last_word, put_key, end_key, mod_name_end, opened, push_arg, make_room, copy_key, command_end,
  run_command, Parsed, parse_reads, initial,
}

-- sizeof(void *), and the number of modules in `sys_modules`
abbrev pub pointer_size : ℕ
pointer_size = 8

abbrev pub sys_mod_num : ℕ
sys_mod_num = 2

-- "conf/xpipe.conf"
abbrev pub xpipe_conf_file_path : Bytes
xpipe_conf_file_path =
    b'c' ∷ b'o' ∷ b'n' ∷ b'f' ∷ b'/' ∷ b'x' ∷ b'p' ∷ b'i' ∷ b'p' ∷ b'e' ∷ b'.' ∷ b'c' ∷ b'o' ∷ b'n'
    ∷ b'f' ∷ []

module _ (env : Env) where
  open env use {Pool, alloc, open_file}

  abbrev pub no_settings : Pool → Settings env
  no_settings p = record {
    pool = p;
    main = none;
    net = none;
    main_logger = none;
    net_logger = none;
    blocks = 0;
  }

  -- `file_open` (src/xfile.c), for reading
  unfoldable pub file_open : Bytes → Pool → Option File × Pool
  file_open name p =
      let (a, p') = alloc file_size p in
      if a == null then (none, p') else elim (open_file name) [
        | none ↦ (none, p')
        | some fd ↦ (some (record { fd = some fd; name = name }), p')
      ]

  with_arrays : Option DynamicArray × Pool → Outcome env
  with_arrays (none, p) = err (no_settings p)
  with_arrays (some cmds, p) =
      elim (dynamic_array_init env.allocator sys_mod_num pointer_size p).0 [
        | none ↦ err (no_settings (dynamic_array_init env.allocator sys_mod_num pointer_size p).1)
        | some cfs ↦
            ok (no_settings (dynamic_array_init env.allocator sys_mod_num pointer_size p).1)
      ]

  with_file : Option File × Pool → Outcome env
  unfolding with_arrays
  with_file (none, p) = err (no_settings p)
  with_file (some f, p) = with_arrays (dynamic_array_init env.allocator 10 pointer_size p)

  -- `conf_file_init` behind the creation of its pool. The one command that stands everywhere fits
  -- the ten places of `mod_cmds`, so the pushes take no memory.
  unfoldable pub conf_file_init : Pool → Outcome env
  unfolding with_file file_open
  conf_file_init p = with_file (file_open xpipe_conf_file_path p)

  -- `conf_file_parser`, with the pool that `mem_pool_create` gave and what the reads give
  unfoldable pub conf_file_parser : Option Pool → List (Option Bytes) → Option (Parsed env)
  unfolding conf_file_init parse_reads run at_end step step_in step_block start_command new_args
      end_name end_word end_last_word put_key end_key mod_name_end opened push_arg make_room
      copy_key command_end run_command conf_file_get_sys_mod conf_file_get_command
      conf_file_get_global_cmd create_conf set_command cmd_daemon_set cmd_pid_set cmd_log_set
      cmd_listen_set cmd_connecions_set cmd_nodelay_set cmd_request_buffer_size_set pid_named
      log_named log_to set_logger full_name log_level
  conf_file_parser none reads = none
  conf_file_parser (some p) reads = elim (conf_file_init p) [
    | ok s ↦ some (parse_reads env reads (initial env s))
    | _ ↦ none
  ]
