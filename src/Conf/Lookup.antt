-- ===== src/Conf/Lookup.antt =====
-- The tables of modules and commands, and the searches in them (src/conf_file.c, and the tables
-- of src/xpipe.c, src/net/network.c and src/mod_manager.c).
use xpipe.Base.{
  Bool, true, false, ◌&&◌, List, [], ◌∷◌, Option, none, some, Bytes, ◌==◌, if◌then◌else◌, length,
}
use xpipe.Xstring.{same_string}
use xpipe.Conf.Settings.{Env, Module, main_mod, net_mod, Settings, Outcome, fault, Args}
use xpipe.Conf.Commands.{
  cmd_daemon_set, cmd_pid_set, cmd_log_set, cmd_listen_set, cmd_connecions_set, cmd_nodelay_set,
  cmd_request_buffer_size_set, create_main_loc_conf, create_net_mod_conf,
}

-- the `set` functions
pub data Command : Type 0 where
  daemon pid log listen connections nodelay request_buffer_size : Command

-- `conf_command_t`; `everywhere` is its `mod`
pub record Entry : Type 0 where
  pub everywhere : Bool
  pub name : Bytes
  pub command : Command

abbrev pub text_main : Bytes
text_main = b'm' ∷ b'a' ∷ b'i' ∷ b'n' ∷ []

abbrev pub text_net : Bytes
text_net = b'n' ∷ b'e' ∷ b't' ∷ []

abbrev pub text_daemon : Bytes
text_daemon = b'd' ∷ b'a' ∷ b'e' ∷ b'm' ∷ b'o' ∷ b'n' ∷ []

abbrev pub text_pid : Bytes
text_pid = b'p' ∷ b'i' ∷ b'd' ∷ []

abbrev pub text_log : Bytes
text_log = b'l' ∷ b'o' ∷ b'g' ∷ []

abbrev pub text_listen : Bytes
text_listen = b'l' ∷ b'i' ∷ b's' ∷ b't' ∷ b'e' ∷ b'n' ∷ []

abbrev pub text_connections : Bytes
text_connections = b'c' ∷ b'o' ∷ b'n' ∷ b'n' ∷ b'e' ∷ b'c' ∷ b't' ∷ b'i' ∷ b'o' ∷ b'n' ∷ b's' ∷ []

abbrev pub text_nodelay : Bytes
text_nodelay = b'n' ∷ b'o' ∷ b'd' ∷ b'e' ∷ b'l' ∷ b'a' ∷ b'y' ∷ []

abbrev pub text_request_buffer_size : Bytes
text_request_buffer_size =
    b'r' ∷ b'e' ∷ b'q' ∷ b'u' ∷ b'e' ∷ b's' ∷ b't' ∷ b'_' ∷ b'b' ∷ b'u' ∷ b'f' ∷ b'f' ∷ b'e' ∷ b'r'
    ∷ b'_' ∷ b's' ∷ b'i' ∷ b'z' ∷ b'e' ∷ []

abbrev entry : Bool → Bytes → Command → Entry
entry e n c = record { everywhere = e; name = n; command = c }

-- `commands` of src/xpipe.c and of src/net/network.c, without the closing null entry
unfoldable pub commands : Module → List Entry
commands main_mod =
    entry false text_daemon daemon ∷ entry false text_pid pid ∷ entry true text_log log ∷ []
commands net_mod =
    entry false text_listen listen
    ∷ entry false text_connections connections
    ∷ entry false text_nodelay nodelay
    ∷ entry false text_request_buffer_size request_buffer_size
    ∷ []

-- `sys_modules`, by name
unfoldable pub conf_file_get_sys_mod : Bytes → Option Module
conf_file_get_sys_mod name =
    if same_string name text_main
    then some main_mod
    else if same_string name text_net
    then some net_mod
    else none

unfoldable pub matches : Bytes → Entry → Bool
matches name e = length name == length e.name && same_string name e.name

-- the loop of `conf_file_get_command`
find_command : Bytes → List Entry → Option Command
unfolding matches
find_command name [] = none
find_command name (e ∷ es) =
    let rest = find_command name es in
    if e.everywhere then none else if matches name e then some e.command else rest

unfoldable pub conf_file_get_command : Module → Bytes → Option Command
unfolding find_command commands
conf_file_get_command m name = find_command name (commands m)

-- the loop of `conf_file_init` that fills `mod_cmds`
unfoldable pub global_commands : List Entry → List Entry
global_commands [] = []
global_commands (e ∷ es) = let rest = global_commands es in if e.everywhere then e ∷ rest else rest

find_global : Bytes → List Entry → Option Command
unfolding matches
find_global name [] = none
find_global name (e ∷ es) =
    let rest = find_global name es in if matches name e then some e.command else rest

-- `conf_file_get_global_cmd`
unfoldable pub conf_file_get_global_cmd : Bytes → Option Command
unfolding find_global global_commands commands
conf_file_get_global_cmd name = find_global name (global_commands (commands main_mod))

module _ (env : Env) where
  -- `mod->create_conf`
  unfoldable pub create_conf : Module → Settings env → Outcome env
  unfolding create_main_loc_conf create_net_mod_conf
  create_conf main_mod s = create_main_loc_conf env s
  create_conf net_mod s = create_net_mod_conf env s

  -- `cmd->set`; a command of a module is handed its `mod_conf`
  unfoldable pub set_command : Command → Args → Module → Settings env → Outcome env
  unfolding cmd_daemon_set cmd_pid_set cmd_log_set cmd_listen_set cmd_connecions_set cmd_nodelay_set
      cmd_request_buffer_size_set
  set_command daemon a m s = elim s.main [ none ↦ fault | some cf ↦ cmd_daemon_set env a cf s ]
  set_command pid a m s = elim s.main [ none ↦ fault | some cf ↦ cmd_pid_set env a cf s ]
  set_command log a m s = cmd_log_set env a m s
  set_command listen a m s = elim s.net [ none ↦ fault | some cf ↦ cmd_listen_set env a cf s ]
  set_command connections a m s = elim s.net [
    | none ↦ fault
    | some cf ↦ cmd_connecions_set env a cf s
  ]
  set_command nodelay a m s = elim s.net [ none ↦ fault | some cf ↦ cmd_nodelay_set env a cf s ]
  set_command request_buffer_size a m s = elim s.net [
    | none ↦ fault
    | some cf ↦ cmd_request_buffer_size_set env a cf s
  ]
