-- ===== src/Conf/Handlers.antt =====
-- The `create_conf` and `set` functions (src/xpipe.c, src/net/network.c): a module keeps its
-- configuration, and the numeric commands take exactly the numerals.
use xpipe.Base.{ℕ, [], Option, none, some, Bytes, ◌≡◌, ◌≢◌, arith, Option-cases, inl, inr}
use mathlib.Core.Option.{get_or}
use xpipe.Xstring.{c_string}
use xpipe.Conf.Settings.{
  Env, Module, main_mod, net_mod, Settings, MainConf, file_size, File, Logger, Outcome, ok, err,
  fault, Args,
}
use xpipe.Conf.Commands.{
  word, taking, cmd_daemon_set, cmd_pid_set, pid_named, cmd_log_set, log_named, log_to, set_logger,
  full_name, cmd_listen_set, cmd_connecions_set, cmd_nodelay_set, cmd_request_buffer_size_set,
}
use xpipe.Conf.Lookup.{
  Command, daemon, pid, log, listen, connections, nodelay, request_buffer_size, create_conf,
  set_command, conf_file_get_command, conf_file_get_global_cmd,
}
use xpipe.Conf.Parser.{which}

-- the commands that a block of the module may hold
abbrev pub Allowed : Module → Command → Type 0
Allowed main_mod daemon = Unit
Allowed main_mod pid = Unit
Allowed net_mod listen = Unit
Allowed net_mod connections = Unit
Allowed net_mod nodelay = Unit
Allowed net_mod request_buffer_size = Unit
Allowed _ log = Unit
Allowed _ _ = ⊥

module _ (env : Env) where
  -- the module's `mod_conf` is not NULL
  abbrev pub HasConf : Module → Settings env → Type 0
  HasConf main_mod s = s.main ≢ none
  HasConf net_mod s = s.net ≢ none

  -- the call follows no NULL, and leaves the module its configuration if it succeeds
  abbrev pub IsSafe : Module → Outcome env → Type 0
  IsSafe m (ok s) = HasConf m s
  IsSafe m (err s) = Unit {0}
  IsSafe m fault = ⊥

  pub create_conf-IsSafe : (m : Module) (s : Settings env) → IsSafe m (create_conf env m s)
  unfolding create_conf
  create_conf-IsSafe main_mod s = ground arith
  create_conf-IsSafe net_mod s = ground arith

  pub which-Allowed :
      (m : Module) (name : Bytes) (c : Command) → which env m name ≡ some c → Allowed m c
  unfolding conf_file_get_command conf_file_get_global_cmd
  which-Allowed main_mod name c e = ground arith
  which-Allowed net_mod name c e = ground arith

  set_logger-HasConf :
      (m n : Module) (l : Option Logger) (s : Settings env)
      → HasConf m s
      → HasConf m (set_logger env n l s)
  unfolding set_logger
  set_logger-HasConf main_mod main_mod l s h = h
  set_logger-HasConf main_mod net_mod l s h = h
  set_logger-HasConf net_mod main_mod l s h = h
  set_logger-HasConf net_mod net_mod l s h = h

  log_to-IsSafe :
      (m : Module) (a : Args) (f : File) (s : Settings env)
      → HasConf m s
      → IsSafe m (log_to env m a f s)
  unfolding log_to set_logger
  log_to-IsSafe main_mod a f s h = ground arith
  log_to-IsSafe net_mod a f s h = ground arith

  log_named-IsSafe :
      (m : Module) (a : Args) (r : Option Bytes × Settings env)
      → HasConf m r.1
      → IsSafe m (log_named env m a r)
  unfolding log_named
  log_named-IsSafe m a (none, s) h = tt
  log_named-IsSafe m a (some name, s) h = ground (arith, opened (env.open_file (c_string name)))
    where
      opened :
          (fd : Option ℕ)
          → IsSafe m (elim fd [
            | none ↦ err s
            | some d ↦ log_to env m a (record { fd = some d; name = name }) s
          ])
      opened none = tt
      opened (some d) = log_to-IsSafe m a (record { fd = some d; name = name }) s h

  full_name-HasConf :
      (m : Module) (arg : Bytes) (s : Settings env)
      → HasConf m s
      → HasConf m (full_name env arg s).1
  unfolding full_name
  full_name-HasConf main_mod arg s h = ground arith
  full_name-HasConf net_mod arg s h = ground arith

  taking-HasConf :
      (m : Module) (n : ℕ) (s : Settings env) → HasConf m s → HasConf m (taking env n s).1
  taking-HasConf main_mod n s h = h
  taking-HasConf net_mod n s h = h

  cmd_log_set-IsSafe :
      (m : Module) (a : Args) (s : Settings env) → HasConf m s → IsSafe m (cmd_log_set env a m s)
  unfolding cmd_log_set
  cmd_log_set-IsSafe m a s h =
      let s' = (taking env file_size s).1 in
      let arg = get_or (word a 1) [] in
      let h' = full_name-HasConf m arg s' (taking-HasConf m file_size s h) in
      ground (arith, log_named-IsSafe m a (full_name env arg s') h')

  pid_named-IsSafe :
      (cf : MainConf) (r : Option Bytes × Settings env) → IsSafe main_mod (pid_named env cf r)
  unfolding pid_named
  pid_named-IsSafe cf (none, s) = tt
  pid_named-IsSafe cf (some name, s) = ground arith

  cmd_pid_set-IsSafe :
      (a : Args) (cf : MainConf) (s : Settings env) → IsSafe main_mod (cmd_pid_set env a cf s)
  unfolding cmd_pid_set
  cmd_pid_set-IsSafe a cf s =
      let arg = get_or (word a 1) [] in ground (arith, pid_named-IsSafe cf (full_name env arg s))

  pub set_command-IsSafe :
      (c : Command) (a : Args) (m : Module) (s : Settings env)
      → Allowed m c
      → HasConf m s
      → IsSafe m (set_command env c a m s)
  unfolding set_command cmd_daemon_set cmd_listen_set cmd_connecions_set cmd_nodelay_set
      cmd_request_buffer_size_set
  set_command-IsSafe daemon a main_mod s k h = ground arith
  set_command-IsSafe daemon a net_mod s k h = absurd k
  set_command-IsSafe pid a main_mod s k h = elim (Option-cases s.main) [
    | inl e ↦ absurd (h e)
    | inr (cf, e) ↦ rw (e, set_command) (cmd_pid_set-IsSafe a cf s)
  ]
  set_command-IsSafe pid a net_mod s k h = absurd k
  set_command-IsSafe log a m s k h = cmd_log_set-IsSafe m a s h
  set_command-IsSafe listen a main_mod s k h = absurd k
  set_command-IsSafe listen a net_mod s k h = ground arith
  set_command-IsSafe connections a main_mod s k h = absurd k
  set_command-IsSafe connections a net_mod s k h = ground arith
  set_command-IsSafe nodelay a main_mod s k h = absurd k
  set_command-IsSafe nodelay a net_mod s k h = ground arith
  set_command-IsSafe request_buffer_size a main_mod s k h = absurd k
  set_command-IsSafe request_buffer_size a net_mod s k h = ground arith
