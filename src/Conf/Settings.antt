-- ===== src/Conf/Settings.antt =====
-- What the configuration file sets: `xpipe_main_mod_conf_t` (src/xpipe.c), `xpipe_net_mod_conf_t`
-- (src/net/network.c), and the loggers of the two `system_module_t`s (src/mod_manager.h).
use xpipe.Base.{ℕ, List, Option, Bytes}
use xpipe.Allocator.{Allocator}

-- What the program finds when it runs: its pools; the descriptor that `open` gives for a name, if
-- it succeeds; and the paths that `configure` wrote into the program.
pub record Env : Type 1 where
  pub allocator : Allocator
  pub open allocator use *
  pub open_file : Bytes → Option ℕ
  pub install_dir : Bytes
  pub default_pid_path : Bytes

-- `sys_main_module` and `sys_net_module`
pub data Module : Type 0 where
  main_mod net_mod : Module

-- `file_t`; no descriptor is FL_INVALID_FD
pub record File : Type 0 where
  pub fd : Option ℕ
  pub name : Bytes

-- LOG_LEVEL_ERROR, …, LOG_LEVEL_STDOUT
abbrev pub log_level_error : ℕ
log_level_error = 1

abbrev pub log_level_warn : ℕ
log_level_warn = 2

abbrev pub log_level_info : ℕ
log_level_info = 3

abbrev pub log_level_debug : ℕ
log_level_debug = 4

abbrev pub log_level_stdout : ℕ
log_level_stdout = 5

-- `logger_t`
pub record Logger : Type 0 where
  pub level : ℕ
  pub file : File

pub record MainConf : Type 0 where
  pub daemon : ℕ
  pub pid_file : File

pub record NetConf : Type 0 where
  pub port : ℕ
  pub conns : ℕ
  pub nodelay : ℕ
  pub request_buffer_size : ℕ

-- The `mod_conf` and `logger` of both modules, `none` for NULL; the pool of the configuration;
-- and the number of blocks read.
pub record Settings (env : Env) : Type 0 where
  pub pool : env.allocator.Pool
  pub main : Option MainConf
  pub net : Option NetConf
  pub main_logger : Option Logger
  pub net_logger : Option Logger
  pub blocks : ℕ

-- CONF_OK with the settings reached, CONF_ERROR with those, or a NULL that is followed
pub data Outcome (env : Env) : Type 0 where
  ok : Settings env → Outcome env
  err : Settings env → Outcome env
  fault : Outcome env

-- the words of a command, its name first; `nalloc` counts the places in the array
pub record Args : Type 0 where
  pub words : List Bytes
  pub nalloc : ℕ

-- sizes of `xpipe_main_mod_conf_t`, `xpipe_net_mod_conf_t`, `network_t`, `file_t`, `logger_t` and
-- `string_t`
abbrev pub main_conf_size : ℕ
main_conf_size = 56

abbrev pub net_conf_size : ℕ
net_conf_size = 24

abbrev pub network_size : ℕ
network_size = 16

abbrev pub file_size : ℕ
file_size = 32

abbrev pub logger_size : ℕ
logger_size = 16

abbrev pub string_size : ℕ
string_size = 16
