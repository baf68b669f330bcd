-- ===== src/MainProgram.antt =====
-- `main` (src/xpipe.c): the order in which the program sets itself up, up to its loop.
pub mod Reached
pub mod Faulted
pub mod Loop
pub mod Stops
pub mod Succeeds
use xpipe.Base.{ℕ, Bool, true, false, not, List, [], ◌∷◌, Option, none, some, Bytes, if◌then◌else◌}
use xpipe.NetEvent.{Epoll}
use xpipe.Conf.Settings.{Env, Settings, MainConf, NetConf}
use xpipe.Conf.Parser.{Parsed, conf_ok, conf_error, undefined}
use xpipe.Conf.Start.{conf_file_parser}
use xpipe.TcpServer.Accept.{Sockets, Table}
use xpipe.TcpServer.Setup.{ServerCalls, TcpServer}
use xpipe.Network.{Outcome, init_network_mod}
use xpipe.Startup.{Resource, SystemModule, create_default_logger, sys_modules_prepare}
use xpipe.Startup.Daemon.{Forked, Fds, Daemon, exited, returned, process_daemon}

module _ (env : Env) (ep : Epoll) (so : Sockets ep) (sc : ServerCalls ep so) where
  open env use {Pool}
  open ep use {Kernel}

  -- What the system gives the program on its way: the pool of the configuration and what the reads
  -- of its file give; the descriptor of the default log; the pools of the modules, in turn; whether
  -- the signal handlers can be set; what the memory of the connections held; and what
  -- `process_daemon` meets.
  pub record Boot : Type 0 where
    pub conf_pool : Option Pool
    pub reads : List (Option Bytes)
    pub log_fd : Option ℕ
    pub module_pools : List (Option Pool)
    pub signals : Bool
    pub memory : Table
    pub forked : Forked
    pub null_fd : Option ℕ
    pub pid_opens : Bool
    pub pid : ℕ
    pub pid_written : Option ℕ
    pub fds : Fds
    pub pid_file : Option Bytes

  -- How far `main` gets: it returns XPE_ERROR, or follows a NULL or writes out of bounds, or exits
  -- in the parent of the daemon, or calls `system_modules_working`, with the network as
  -- `init_network_mod` has left it.
  pub data Ended : Type 0 where
    failed faulted parent_exited : Ended
    working : NetConf → TcpServer → Kernel → Ended

  abbrev pub daemonised : NetConf → TcpServer → Kernel → Daemon → Ended
  daemonised cf s k exited = parent_exited
  daemonised cf s k (returned true f file) = working cf s k
  daemonised cf s k (returned false f file) = failed

  -- `process_daemon`, with the configuration of the main module
  abbrev pub daemon_stage :
      Boot → Option MainConf → NetConf → Outcome ep so sc env.allocator → Ended
  daemon_stage b m cf (false, s, k, p) = failed
  daemon_stage b none cf (true, s, k, p) = faulted
  daemon_stage b (some m) cf (true, s, k, p) =
      daemonised cf s k (
        process_daemon m.daemon b.forked b.null_fd b.pid_opens b.pid b.pid_written b.fds b.pid_file)

  -- `init_network_mod`, with the configuration of the module and its pool
  abbrev pub network_stage : Boot → Settings env → Kernel → Option NetConf → Option Pool → Ended
  network_stage b s k none pool = faulted
  network_stage b s k (some cf) none = faulted
  network_stage b s k (some cf) (some p) =
      daemon_stage b s.main cf (init_network_mod ep so sc env.allocator cf b.memory k p)

  -- `system_modules_init`: the signals of the main module, and then the network module
  abbrev pub init_stage : Boot → Settings env → Kernel → List (SystemModule Pool) → Ended
  init_stage b s k (m ∷ n ∷ ms) = if not b.signals then failed else network_stage b s k s.net n.pool
  init_stage b s k _ = faulted

  -- the two modules as the configuration left them
  abbrev pub sys_modules : Settings env → List (SystemModule Pool)
  sys_modules s =
      record { pool = none; logger = s.main_logger }
      ∷ (record { pool = none; logger = s.net_logger } ∷ [])

  abbrev pub prepared_stage : Boot → Settings env → Kernel → Bool × List (SystemModule Pool) → Ended
  prepared_stage b s k (false, ms) = failed
  prepared_stage b s k (true, ms) = init_stage b s k ms

  -- `sys_modules_prepare`
  abbrev pub logger_stage : Boot → Settings env → Kernel → Bool × Resource × Pool → Ended
  logger_stage b s k (false, r, p) = failed
  logger_stage b s k (true, r, p) =
      prepared_stage b s k
        (sys_modules_prepare env.allocator r.default_logger b.module_pools (sys_modules s))

  -- `create_default_logger`, behind the parser of the configuration
  abbrev pub parsed_stage : Boot → Kernel → Option (Parsed env) → Ended
  parsed_stage b k none = failed
  parsed_stage b k (some (conf_error p)) = failed
  parsed_stage b k (some undefined) = faulted
  parsed_stage b k (some (conf_ok p)) = logger_stage b p.settings k (
      create_default_logger env.allocator
        (record { main_logger = p.settings.main_logger; default_logger = none }) b.log_fd
        p.settings.pool)

  -- `main`
  unfoldable pub main_program : Boot → Kernel → Ended
  main_program b k = parsed_stage b k (conf_file_parser env b.conf_pool b.reads)
