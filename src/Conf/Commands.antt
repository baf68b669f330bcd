-- ===== src/Conf/Commands.antt =====
-- The `create_conf` and `set` functions of the two modules (src/xpipe.c, src/net/network.c).
use xpipe.Base.{
  ℕ, ◌+◌, Bool, not, [], ◌∷◌, Option, none, some, Bytes, null, ◌==◌, if◌then◌else◌, length,
  get_elem?,
}
use xpipe.Xstring.{
  is_positive_integer, make_full_file_name, is_full_file_name, c_string, same_string, atoi,
}
use xpipe.Conf.Settings.{
  Env, Module, main_mod, net_mod, File, Logger, MainConf, NetConf, Settings, Outcome, ok, err, Args,
  main_conf_size, net_conf_size, network_size, file_size, logger_size, log_level_error,
  log_level_warn, log_level_info, log_level_debug, log_level_stdout,
}

-- the names that the source compares with
abbrev pub text_off : Bytes
text_off = b'o' ∷ b'f' ∷ b'f' ∷ []

abbrev pub text_error : Bytes
text_error = b'e' ∷ b'r' ∷ b'r' ∷ b'o' ∷ b'r' ∷ []

abbrev pub text_warn : Bytes
text_warn = b'w' ∷ b'a' ∷ b'r' ∷ b'n' ∷ []

abbrev pub text_info : Bytes
text_info = b'i' ∷ b'n' ∷ b'f' ∷ b'o' ∷ []

abbrev pub text_debug : Bytes
text_debug = b'd' ∷ b'e' ∷ b'b' ∷ b'u' ∷ b'g' ∷ []

abbrev pub text_stdout : Bytes
text_stdout = b's' ∷ b't' ∷ b'd' ∷ b'o' ∷ b'u' ∷ b't' ∷ []

-- the ladder of `cmd_log_set`
unfoldable pub log_level : Bytes → Option ℕ
log_level s =
    if same_string s text_error
    then some log_level_error
    else if same_string s text_warn
    then some log_level_warn
    else if same_string s text_info
    then some log_level_info
    else if same_string s text_debug
    then some log_level_debug
    else if same_string s text_stdout
    then some log_level_stdout
    else none

-- `dynamic_array_get_ix` on the words
abbrev pub word : Args → ℕ → Option Bytes
word a i = get_elem? a.words i

module _ (env : Env) where
  open env use {alloc, open_file, install_dir, default_pid_path}

  -- `pcalloc`, `pmalloc`: whether memory came, and the settings with the pool behind the call
  abbrev pub taking : ℕ → Settings env → Bool × Settings env
  taking n s = let (p, pool') = alloc n s.pool in (not (p == null), record s { pool = pool' })

  -- `create_main_loc_conf`, into the module's `mod_conf`
  unfoldable pub create_main_loc_conf : Settings env → Outcome env
  create_main_loc_conf s =
      let (got, s') = taking main_conf_size s in
      let file : File = record { fd = none; name = default_pid_path } in
      if got
      then ok (record s' { main = some (record { daemon = 0; pid_file = file }) })
      else err (record s' { main = none })

  -- `create_net_mod_conf`
  unfoldable pub create_net_mod_conf : Settings env → Outcome env
  create_net_mod_conf s =
      let (got, s') = taking net_conf_size s in
      let (got_network, s'') = taking network_size s' in
      let zero_conf : NetConf = record {
        port = 0;
        conns = 0;
        nodelay = 0;
        request_buffer_size = 0;
      } in
      if not got
      then err (record s' { net = none })
      else if not got_network
      then err (record s'' { net = none })
      else ok (record s'' { net = some zero_conf })

  -- the file name of a `pid` or `log` command, and whether its memory came
  unfoldable pub full_name : Bytes → Settings env → Option Bytes × Settings env
  full_name arg s =
      let (got, s') = taking (length install_dir + length arg + 2) s in
      if is_full_file_name arg
      then (some arg, s)
      else if got
      then (some (c_string (make_full_file_name install_dir arg)), s')
      else (none, s')

  -- `cmd_daemon_set`, on a `mod_conf` that is not NULL
  unfoldable pub cmd_daemon_set : Args → MainConf → Settings env → Outcome env
  cmd_daemon_set a cf s = if not (length a.words == 2) then err s else elim (word a 1) [
    | none ↦ err s
    | some arg ↦ ok (record s {
      main = some (record cf { daemon = if same_string arg text_off then 0 else 1 });
    })
  ]

  -- where no memory came, the name's data is NULL, here the empty name
  unfoldable pub pid_named : MainConf → Option Bytes × Settings env → Outcome env
  pid_named cf (none, s) =
      err (record s { main = some (record cf { pid_file = record { fd = none; name = [] } }) })
  pid_named cf (some name, s) =
      ok (record s { main = some (record cf { pid_file = record { fd = none; name = name } }) })

  -- `cmd_pid_set`
  unfoldable pub cmd_pid_set : Args → MainConf → Settings env → Outcome env
  cmd_pid_set a cf s =
      if not (length a.words == 2)
      then err s
      else elim (word a 1) [ none ↦ err s | some arg ↦ pid_named cf (full_name arg s) ]

  unfoldable pub set_logger : Module → Option Logger → Settings env → Settings env
  set_logger main_mod l s = record s { main_logger = l }
  set_logger net_mod l s = record s { net_logger = l }

  -- the end of `cmd_log_set`, from the look at its third word on
  unfoldable pub log_to : Module → Args → File → Settings env → Outcome env
  log_to m a file s = elim (word a 2) [
    | none ↦ err s
    | some arg ↦ elim (log_level arg) [
      | none ↦ err s
      | some level ↦
          let (got, s') = taking logger_size s in
          if got
          then ok (set_logger m (some (record { level = level; file = file })) s')
          else err (set_logger m none s')
    ]
  ]

  unfoldable pub log_named : Module → Args → Option Bytes × Settings env → Outcome env
  log_named m a (none, s) = err s
  log_named m a (some name, s) = elim (open_file (c_string name)) [
    | none ↦ err s
    | some fd ↦ log_to m a (record { fd = some fd; name = name }) s
  ]

  -- `cmd_log_set`, for the module whose block the command stands in
  unfoldable pub cmd_log_set : Args → Module → Settings env → Outcome env
  cmd_log_set a m s = if not (length a.words == 3) then err s else elim (word a 1) [
    | none ↦ err s
    | some arg ↦
        let (got, s') = taking file_size s in
        let named = log_named m a (full_name arg s') in if got then named else err s'
  ]

  -- `cmd_listen_set`
  unfoldable pub cmd_listen_set : Args → NetConf → Settings env → Outcome env
  cmd_listen_set a cf s = if not (length a.words == 2) then err s else elim (word a 1) [
    | none ↦ err s
    | some arg ↦
        if not (is_positive_integer (some arg))
        then err s
        else ok (record s { net = some (record cf { port = atoi arg }) })
  ]

  -- `cmd_connecions_set`
  unfoldable pub cmd_connecions_set : Args → NetConf → Settings env → Outcome env
  cmd_connecions_set a cf s = if not (length a.words == 2) then err s else elim (word a 1) [
    | none ↦ err s
    | some arg ↦
        if not (is_positive_integer (some arg))
        then err s
        else ok (record s { net = some (record cf { conns = atoi arg }) })
  ]

  -- `cmd_nodelay_set`
  unfoldable pub cmd_nodelay_set : Args → NetConf → Settings env → Outcome env
  cmd_nodelay_set a cf s =
      if not (length a.words == 1)
      then err s
      else ok (record s { net = some (record cf { nodelay = 1 }) })

  -- `cmd_request_buffer_size_set`
  unfoldable pub cmd_request_buffer_size_set : Args → NetConf → Settings env → Outcome env
  cmd_request_buffer_size_set a cf s =
      if not (length a.words == 2) then err s else elim (word a 1) [
        | none ↦ err s
        | some arg ↦
            if not (is_positive_integer (some arg))
            then err s
            else ok (record s { net = some (record cf { request_buffer_size = atoi arg }) })
      ]
