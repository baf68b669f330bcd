-- ===== src/MainProgram/Succeeds.antt =====
-- SIGTERM ends the program with status 0 (src/xpipe.c).
use xpipe.Base.{◌≡◌, refl, arith, false, List, [], ◌∷◌, ◌++◌}
use xpipe.NetEvent.{Epoll}
use xpipe.Allocator.{Allocator}
use xpipe.Conf.Settings.{Env, NetConf}
use xpipe.TcpServer.Accept.{Sockets, Table}
use xpipe.TcpServer.Setup.{ServerCalls, TcpServer}
use xpipe.EventLoop.{done}
use xpipe.EventLoop.Clients.{Traffic}
use xpipe.EventLoop.Handled.{Handled}
use xpipe.EventLoop.NoNull.{Single, AllHandled, Partition-unique}
use xpipe.EventLoop.Calls.{round-AllHandled}
use xpipe.Network.Serving.{process_network_mod, same-IsConsistent}
use xpipe.Network.Started.{Listens}
use xpipe.Times.{TimeCache}
use xpipe.MainProgram.Loop.{
  Turn, Looped, returned, killed, null_called, waiting, turn_time, system_modules_working,
}
use xpipe.MainProgram.Stops.{Quiet, Consistent}

module _ (ep : Epoll) (so : Sockets ep) (sc : ServerCalls ep so) (al : Allocator)
    (tr : Traffic ep so al) (cf : NetConf) where
  open ep use {Kernel}

  -- no report of these turns has both events of a connection
  abbrev pub SingleTurns : List (Turn ep so sc al tr cf) → Type 0
  SingleTurns [] = Unit {0}
  SingleTurns (u ∷ us) = ((k : Kernel) → Single (u.ready k)) × SingleTurns us

  -- the connections are as the system has them, and have their handlers
  abbrev pub Sound : Kernel → Table → Type 0
  Sound k t = Consistent ep so sc al tr cf k t × AllHandled cf.conns t

  -- the loop returns with that time and sound connections
  abbrev pub Returned : TimeCache → Looped ep so sc al tr cf → Type 0
  Returned c (returned k t c') = Sound k t × (c' ≡ c)
  Returned c killed = ⊥
  Returned c null_called = ⊥
  Returned c waiting = ⊥

  turn-Sound :
      (u : Turn ep so sc al tr cf) (k : Kernel) (t : Table)
      → ((k : Kernel) → Single (u.ready k))
      → Sound k t
      → (w : Kernel × Table) × (process_network_mod ep so sc al tr cf
            (u.ready (u.waited k))
            (u.waited k)
            t
          ≡ done w)
        × Sound w.0 w.1
  turn-Sound u k t s ((used, before), all) =
      let v =
        same-IsConsistent ep so sc al tr cf cf.conns k (u.waited k) t used (u.waited-same k)
          before in
      let (w, e, v', all') =
        round-AllHandled ep so al tr cf.request_buffer_size cf.nodelay cf.conns _
          (u.ready (u.waited k)) (u.waited k) t used v all (u.ready-Reported (u.waited k))
          (s (u.waited k)) (omega arith) in
      (w, e, (v', all'))

  pub system_modules_working-Returned :
      (before : List (Turn ep so sc al tr cf)) (u : Turn ep so sc al tr cf)
      (after : List (Turn ep so sc al tr cf)) (k : Kernel) (t : Table) (c : TimeCache)
      → Quiet ep so sc al tr cf before
      → u.terminations ≡ 1
      → SingleTurns (before ++ u ∷ after)
      → Sound k t
      → Returned
          (turn_time ep so sc al tr cf u)
          (system_modules_working ep so sc al tr cf false (before ++ u ∷ after) k t c)
  unfolding system_modules_working
  system_modules_working-Returned [] u after k t c q one (s, rest) v =
      let (w, went, v') = turn-Sound u k t s v in rw (went, one, system_modules_working) (v', refl)
  system_modules_working-Returned (b ∷ before) u after k t c (z, q) one (s, rest) v =
      let (w, went, v') = turn-Sound b k t s v in
      rw (went, z, system_modules_working)
        (system_modules_working-Returned before u after w.0 w.1 _ q one rest v')

module _ (env : Env) (ep : Epoll) (so : Sockets ep) (sc : ServerCalls ep so)
    (tr : Traffic ep so env.allocator) where
  open ep use {Kernel}

  pub Listens-Sound :
      (cf : NetConf) (s : TcpServer) (k : Kernel)
      → Listens ep so sc env.allocator cf.conns s k
      → Sound ep so sc env.allocator tr cf k s.table
  Listens-Sound cf s k (i, v, fd, is_listening, ev, rh, de) = (
    (i ∷ [], v),
    λ us p j u.
        let same = Partition-unique cf.conns s.table.pool us (i ∷ []) p v.partition j in
        let it : i ≡ j = ground (arith, same, u) in
        let listens : Handled (s.table.slots i) =
          (λ e. ground (arith, rh, e), λ e. ground (arith, ev, e), ground (arith, de)) in
        rw⁻¹ it listens,
  )
