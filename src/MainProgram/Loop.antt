-- ===== src/MainProgram/Loop.antt =====
-- The loop of the program, `system_modules_working`, and how the program ends (src/xpipe.c); built
-- without USE_BACKTRACE, so that SIGTERM is handled.
use xpipe.Base.{ℕ, zero, suc, Bool, true, false, List, [], ◌∷◌, Option, none, some}
use xpipe.Connection.{Events}
use xpipe.NetEvent.{Epoll}
use xpipe.Allocator.{Allocator}
use xpipe.Conf.Settings.{Env, NetConf}
use xpipe.TcpServer.Accept.{Sockets, Table}
use xpipe.TcpServer.Descriptors.{SameDescriptors}
use xpipe.TcpServer.Setup.{ServerCalls}
use xpipe.EventLoop.{done, null_handler, running}
use xpipe.EventLoop.Clients.{Traffic}
use xpipe.EventLoop.Reports.{Reported}
use xpipe.Network.Serving.{process_network_mod}
use xpipe.Times.{Tm, TimeCache, timer_update}
use xpipe.MainProgram.{Boot, Ended, failed, faulted, parent_exited, working, main_program}

-- `sig_term_handler` and what `sigaction` was told in `setup_signals`: the first SIGTERM sets
-- `stop`, and resets the handler, so that a second one ends the process, which is `none`. The
-- result is `stop` after that many of them.
abbrev pub signalled : ℕ → Option Bool
signalled zero = some false
signalled (suc zero) = some true
signalled (suc (suc n)) = none

module _ (ep : Epoll) (so : Sockets ep) (sc : ServerCalls ep so) (al : Allocator)
    (tr : Traffic ep so al) (cf : NetConf) where
  open ep use {Kernel}

  -- What the system does in a turn of the loop: how it goes on up to the return of `epoll_wait`,
  -- which opens, closes and watches no descriptor; what it reports then, of descriptors that are watched; how many SIGTERM arrive;
  -- and the time at the end.
  pub record Turn : Type 0 where
    pub waited : Kernel → Kernel
    pub ready : Kernel → List (ℕ × Events)
    pub terminations : ℕ
    pub secs : ℕ
    pub usecs : ℕ
    pub time : Tm
    pub waited-same : (k : Kernel) → SameDescriptors ep so k (waited k)
    pub ready-Reported : (k : Kernel) → Reported ep k [] (ready k)

  -- how the loop ends; it is `waiting` if it still goes on behind the turns that are given
  pub data Looped : Type 0 where
    returned : Kernel → Table → TimeCache → Looped
    killed null_called waiting : Looped

  -- `timer_update` at the end of a turn
  abbrev pub turn_time : Turn → TimeCache
  turn_time u = timer_update u.secs u.usecs u.time

  -- `system_modules_working`, with `stop`; the main module has no `process_mod`
  unfoldable pub system_modules_working : Bool → List Turn → Kernel → Table → TimeCache → Looped
  system_modules_working true us k t c = returned k t c
  system_modules_working false [] k t c = waiting
  system_modules_working false (u ∷ us) k t c =
      elim (process_network_mod ep so sc al tr cf (u.ready (u.waited k)) (u.waited k) t) [
        | done w ↦ elim (signalled u.terminations) [
          | none ↦ killed
          | some stop ↦ system_modules_working stop us w.0 w.1 (turn_time u)
        ]
        | null_handler ↦ null_called
        | running ↦ waiting
      ]

module _ (env : Env) (ep : Epoll) (so : Sockets ep) (sc : ServerCalls ep so)
    (tr : Traffic ep so env.allocator) where
  open ep use {Kernel}

  -- how the program ends: with a status, XPE_ERROR being -1, or by a fault or a signal, or not
  -- within the turns that are given
  pub data Exit : Type 0 where
    success error crashed terminated unfinished : Exit

  abbrev pub loop_exit : {cf : NetConf} → Looped ep so sc env.allocator tr cf → Exit
  loop_exit (returned k t c) = success
  loop_exit killed = terminated
  loop_exit null_called = crashed
  loop_exit waiting = unfinished

  -- the rest of `main` behind `process_daemon`: the loop and `return 0`
  abbrev pub exit_of :
      Bool
      → ((cf : NetConf) → List (Turn ep so sc env.allocator tr cf))
      → TimeCache
      → Ended env ep so sc
      → Exit
  exit_of stop turns c failed = error
  exit_of stop turns c faulted = crashed
  exit_of stop turns c parent_exited = success
  exit_of stop turns c (working cf server k) =
      loop_exit
        (system_modules_working ep so sc env.allocator tr cf stop (turns cf) k server.table c)

  -- The whole of `main`, with the time that `timer_init` read, whether SIGTERM has arrived before
  -- the loop, and the turns of the loop.
  unfoldable pub program :
      Boot env ep so sc
      → Bool
      → ((cf : NetConf) → List (Turn ep so sc env.allocator tr cf))
      → TimeCache
      → Kernel
      → Exit
  unfolding system_modules_working
  program b stop turns c k = exit_of stop turns c (main_program env ep so sc b k)
