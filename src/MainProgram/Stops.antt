-- ===== src/MainProgram/Stops.antt =====
-- SIGTERM ends the loop of the program, and the program (src/xpipe.c).
use xpipe.Base.{ℕ, ◌≡◌, ◌⊎◌, inl, inr, refl, arith, false, List, [], ◌∷◌, ◌++◌}
use xpipe.NetEvent.{Epoll}
use xpipe.Allocator.{Allocator}
use xpipe.Conf.Settings.{Env, NetConf}
use xpipe.TcpServer.Accept.{Sockets, Table}
use xpipe.TcpServer.Setup.{ServerCalls, TcpServer}
use xpipe.EventLoop.{Walked, done, null_handler, running}
use xpipe.EventLoop.Consistent.{IsConsistent}
use xpipe.EventLoop.Reports.{Reported-within}
use xpipe.EventLoop.Rounds.{Stays}
use xpipe.EventLoop.Clients.{Traffic, client_handlers, round-IsConsistent}
use xpipe.Network.Serving.{process_network_mod, same-IsConsistent}
use xpipe.Times.{TimeCache}
use xpipe.MainProgram.{Boot, working, main_program}
use xpipe.MainProgram.Reached.{main_program-Listens}
use xpipe.MainProgram.Loop.{
  Turn, Looped, returned, killed, null_called, waiting, turn_time, system_modules_working,
  loop_exit, success, crashed, program,
}

module _ (ep : Epoll) (so : Sockets ep) (sc : ServerCalls ep so) (al : Allocator)
    (tr : Traffic ep so al) (cf : NetConf) where
  open ep use {Kernel}

  -- no SIGTERM arrives in these turns
  abbrev pub Quiet : List (Turn ep so sc al tr cf) → Type 0
  Quiet [] = Unit {0}
  Quiet (u ∷ us) = (u.terminations ≡ 0) × Quiet us

  abbrev pub Consistent : Kernel → Table → Type 0
  Consistent k t = (used : List ℕ) × IsConsistent ep so cf.conns k t used

  -- the loop returns with that time, and its connections as the system has them, or calls NULL
  abbrev pub Stopped : TimeCache → Looped ep so sc al tr cf → Type 0
  Stopped c (returned k t c') = Consistent k t × (c' ≡ c)
  Stopped c killed = ⊥
  Stopped c null_called = Unit {0}
  Stopped c waiting = ⊥

  -- a turn keeps the connections as the system has them, or calls NULL
  turn-Consistent :
      (u : Turn ep so sc al tr cf) (k : Kernel) (t : Table)
      → Consistent k t
      → ((w : Kernel × Table) × (process_network_mod ep so sc al tr cf
              (u.ready (u.waited k))
              (u.waited k)
              t
            ≡ done w)
          × Consistent w.0 w.1)
        ⊎ (process_network_mod ep so sc al tr cf (u.ready (u.waited k)) (u.waited k) t
            ≡ null_handler)
  turn-Consistent u k t (used, before) =
      let v =
        same-IsConsistent ep so sc al tr cf cf.conns k (u.waited k) t used (u.waited-same k)
          before in
      stays _ (
        round-IsConsistent ep so al tr cf.request_buffer_size cf.nodelay cf.conns _
          (u.ready (u.waited k)) (u.waited k) t used v
          (Reported-within ep so cf.conns (u.waited k) t used v (u.ready (u.waited k))
            (u.ready-Reported (u.waited k)))
          (omega arith))
    where
      stays :
          (r : Walked ep so (client_handlers ep so al tr cf.request_buffer_size cf.nodelay))
          → Stays ep so (client_handlers ep so al tr cf.request_buffer_size cf.nodelay) cf.conns r
          → ((w : Kernel × Table) × (r ≡ done w) × Consistent w.0 w.1) ⊎ (r ≡ null_handler)
      stays (done w) v = inl (w, refl, v)
      stays null_handler v = inr refl
      stays running v = absurd v

  pub system_modules_working-Stopped :
      (before : List (Turn ep so sc al tr cf)) (u : Turn ep so sc al tr cf)
      (after : List (Turn ep so sc al tr cf)) (k : Kernel) (t : Table) (c : TimeCache)
      → Quiet before
      → u.terminations ≡ 1
      → Consistent k t
      → Stopped
          (turn_time ep so sc al tr cf u)
          (system_modules_working ep so sc al tr cf false (before ++ u ∷ after) k t c)
  unfolding system_modules_working
  system_modules_working-Stopped [] u after k t c q one v = elim (turn-Consistent u k t v) [
    | inl (w, went, v') ↦ rw (went, one, system_modules_working) (v', refl)
    | inr null ↦ rw (null, system_modules_working) tt
  ]
  system_modules_working-Stopped (b ∷ before) u after k t c (z, q) one v =
      elim (turn-Consistent b k t v) [
        | inl (w, went, v') ↦
            rw (went, z, system_modules_working)
              (system_modules_working-Stopped before u after w.0 w.1 _ q one v')
        | inr null ↦ rw (null, system_modules_working) tt
      ]

module _ (env : Env) (ep : Epoll) (so : Sockets ep) (sc : ServerCalls ep so)
    (tr : Traffic ep so env.allocator) where
  open ep use {Kernel}

  Stopped-exit :
      (cf : NetConf) (c : TimeCache) (o : Looped ep so sc env.allocator tr cf)
      → Stopped ep so sc env.allocator tr cf c o
      → (loop_exit env ep so sc tr o ≡ success) ⊎ (loop_exit env ep so sc tr o ≡ crashed)
  Stopped-exit cf c (returned k t c') s = inl refl
  Stopped-exit cf c killed s = absurd s
  Stopped-exit cf c null_called s = inr refl
  Stopped-exit cf c waiting s = absurd s

  -- If the program gets to its loop, then a single SIGTERM ends it: with none before the loop and
  -- in its first turns, and one in the next turn, `main` returns 0 whatever clients do and however
  -- long those turns are, or it has called a handler that is NULL.
  program-exits :
      (b : Boot env ep so sc) (turns : (cf : NetConf) → List (Turn ep so sc env.allocator tr cf))
      (c : TimeCache) (k : Kernel) (cf : NetConf) (server : TcpServer) (k' : Kernel)
      (before : List (Turn ep so sc env.allocator tr cf)) (u : Turn ep so sc env.allocator tr cf)
      (after : List (Turn ep so sc env.allocator tr cf))
      → main_program env ep so sc b k ≡ working cf server k'
      → turns cf ≡ before ++ u ∷ after
      → Quiet ep so sc env.allocator tr cf before
      → u.terminations ≡ 1
      → (program env ep so sc tr b false turns c k ≡ success)
        ⊎ (program env ep so sc tr b false turns c k ≡ crashed)
  unfolding program
  program-exits b turns c k cf server k' before u after e at q one =
      let l = (main_program-Listens env ep so sc b k cf server k' e).2 in
      let stopped =
        system_modules_working-Stopped ep so sc env.allocator tr cf before u after k' server.table c
          q one (l.0 ∷ [], l.1) in
      rw (e, at) (Stopped-exit cf _ _ stopped)
