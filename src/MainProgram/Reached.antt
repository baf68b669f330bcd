-- ===== src/MainProgram/Reached.antt =====
-- What is set up when `main` (src/xpipe.c) gets to its loop.
use xpipe.Base.{
  ◌≤◌, ◌≡◌, refl, subst, Bool, true, false, List, [], ◌∷◌, Option, none, some, Bool-cases, inl, inr,
}
use xpipe.NetEvent.{Epoll}
use xpipe.Conf.Settings.{Env, Settings, MainConf, NetConf}
use xpipe.Conf.Parser.{Parser, Parsed, conf_ok, conf_error, undefined}
use xpipe.Conf.Start.{conf_file_parser}
use xpipe.TcpServer.Accept.{Sockets}
use xpipe.TcpServer.Setup.{ServerCalls, TcpServer}
use xpipe.Network.{Outcome, init_network_mod}
use xpipe.Network.Started.{Listens, Started, init_network_mod-Started}
use xpipe.Startup.{Resource, SystemModule}
use xpipe.Startup.Daemon.{Daemon, exited, returned}
use xpipe.MainProgram.{
  Boot, Ended, failed, faulted, parent_exited, working, daemonised, daemon_stage, network_stage,
  init_stage, prepared_stage, logger_stage, parsed_stage, main_program,
}

module _ (env : Env) (ep : Epoll) (so : Sockets ep) (sc : ServerCalls ep so) where
  open env use {Pool}
  open ep use {Kernel}

  -- if the program works, the network is that of the settings and it listens
  abbrev Working : Settings env → Ended env ep so sc → Type 0
  Working s failed = Unit {0}
  Working s faulted = Unit {0}
  Working s parent_exited = Unit {0}
  Working s (working cf server k) =
      (s.net ≡ some cf) × (2 ≤ cf.conns) × Listens ep so sc env.allocator cf.conns server k

  daemonised-Working :
      (s : Settings env) (cf : NetConf) (server : TcpServer) (k : Kernel) (d : Daemon)
      → s.net ≡ some cf
      → (2 ≤ cf.conns) × Listens ep so sc env.allocator cf.conns server k
      → Working s (daemonised env ep so sc cf server k d)
  daemonised-Working s cf server k exited e l = tt
  daemonised-Working s cf server k (returned true f file) e (two, l) = (e, two, l)
  daemonised-Working s cf server k (returned false f file) e l = tt

  daemon_stage-Working :
      (b : Boot env ep so sc) (s : Settings env) (m : Option MainConf) (cf : NetConf)
      (o : Outcome ep so sc env.allocator)
      → s.net ≡ some cf
      → Started ep so sc env.allocator cf o
      → Working s (daemon_stage env ep so sc b m cf o)
  daemon_stage-Working b s m cf (false, server, k, p) e l = tt
  daemon_stage-Working b s none cf (true, server, k, p) e l = tt
  daemon_stage-Working b s (some m) cf (true, server, k, p) e l =
      daemonised-Working s cf server k _ e l

  network_stage-Working :
      (b : Boot env ep so sc) (s : Settings env) (k : Kernel) (net : Option NetConf)
      (pool : Option Pool)
      → s.net ≡ net
      → Working s (network_stage env ep so sc b s k net pool)
  network_stage-Working b s k none pool e = tt
  network_stage-Working b s k (some cf) none e = tt
  network_stage-Working b s k (some cf) (some p) e =
      daemon_stage-Working b s s.main cf (init_network_mod ep so sc env.allocator cf b.memory k p) e
        (init_network_mod-Started ep so sc env.allocator cf b.memory k p)

  init_stage-Working :
      (b : Boot env ep so sc) (s : Settings env) (k : Kernel) (ms : List (SystemModule Pool))
      → Working s (init_stage env ep so sc b s k ms)
  init_stage-Working b s k [] = tt
  init_stage-Working b s k (m ∷ []) = tt
  init_stage-Working b s k (m ∷ n ∷ ms) = elim (Bool-cases b.signals) [
    | inl y ↦ rw y (network_stage-Working b s k s.net n.pool refl)
    | inr n ↦ rw n tt
  ]

  prepared_stage-Working :
      (b : Boot env ep so sc) (s : Settings env) (k : Kernel) (o : Bool × List (SystemModule Pool))
      → Working s (prepared_stage env ep so sc b s k o)
  prepared_stage-Working b s k (false, ms) = tt
  prepared_stage-Working b s k (true, ms) = init_stage-Working b s k ms

  logger_stage-Working :
      (b : Boot env ep so sc) (s : Settings env) (k : Kernel) (o : Bool × Resource × Pool)
      → Working s (logger_stage env ep so sc b s k o)
  logger_stage-Working b s k (false, r, p) = tt
  logger_stage-Working b s k (true, r, p) = prepared_stage-Working b s k _

  -- the configuration file was accepted
  abbrev pub Accepted : Option (Parsed env) → NetConf → Type 0
  Accepted o cf = (p : Parser env) × (o ≡ some (conf_ok p)) × (p.settings.net ≡ some cf)

  pub main_program-Listens :
      (b : Boot env ep so sc) (k : Kernel) (cf : NetConf) (server : TcpServer) (k' : Kernel)
      → main_program env ep so sc b k ≡ working cf server k'
      → Accepted (conf_file_parser env b.conf_pool b.reads) cf
        × (2 ≤ cf.conns)
        × Listens ep so sc env.allocator cf.conns server k'
  unfolding main_program
  main_program-Listens b k cf server k' e = parsed (conf_file_parser env b.conf_pool b.reads) e
    where
      parsed :
          (o : Option (Parsed env))
          → parsed_stage env ep so sc b k o ≡ working cf server k'
          → Accepted o cf × (2 ≤ cf.conns) × Listens ep so sc env.allocator cf.conns server k'
      parsed none e = cc
      parsed (some (conf_error p)) e = cc
      parsed (some undefined) e = cc
      parsed (some (conf_ok p)) e =
          let (net, two, l) =
            subst (Working p.settings) e (logger_stage-Working b p.settings k _) in
          ((p, refl, net), two, l)
