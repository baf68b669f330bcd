-- ===== src/Network/Fresh.antt =====
-- The epoll that `epoll_build` (src/net/net_epoll.c) makes.
use xpipe.Base.{
  ℕ, zero, suc, ◌*◌, ◌<◌, ◌≡◌, refl, arith, Option, none, some, null, ◌==◌, Bool-cases, inl, inr,
}
use xpipe.Allocator.{Allocator}
use xpipe.NetEvent.{Epoll}
use xpipe.TcpServer.Accept.{Sockets}
use xpipe.TcpServer.Setup.{ServerCalls}
use xpipe.Network.{ctx_size, epoll_event_size, with_ctx, epoll_build}

module _ (ep : Epoll) (so : Sockets ep) (sc : ServerCalls ep so) (al : Allocator) where
  open ep use {Kernel, interest}
  open al use {Pool}

  -- nothing is watched
  abbrev pub Fresh : Kernel → Type 0
  Fresh k = (g : ℕ) → interest k g ≡ none

  -- an epoll of size 0 is refused, and a new one watches nothing
  with_ctx-Fresh :
      (size : ℕ) (o : Option ℕ × Kernel) (p : Pool) (e_fd : ℕ)
      → ((fd : ℕ) → o.0 ≡ some fd → (0 < size) × Fresh o.1)
      → (with_ctx ep so sc al size o p).0 ≡ some e_fd
      → (0 < size) × Fresh (with_ctx ep so sc al size o p).1
  with_ctx-Fresh size (none, k) p e_fd f h = cc
  with_ctx-Fresh size (some fd, k) p e_fd f h =
      elim (Bool-cases ((al.alloc (epoll_event_size * size) p).0 == null)) [
        | inl y ↦ let h' : ◌≡◌ {A = Option ℕ} none (some e_fd) = rw y at h in cc
        | inr n ↦ rw n (f fd refl)
      ]

  create-Fresh :
      (size : ℕ) (k : Kernel) (fd : ℕ)
      → (sc.epoll_create size k).0 ≡ some fd
      → (0 < size) × Fresh (sc.epoll_create size k).1
  create-Fresh zero k fd h = let none_there = sc.epoll_create-zero k in cc
  create-Fresh (suc n) k fd h = (omega arith, sc.epoll_create-fresh (suc n) k fd h)

  pub epoll_build-Fresh :
      (size : ℕ) (k : Kernel) (p : Pool) (e_fd : ℕ)
      → (epoll_build ep so sc al size k p).0 ≡ some e_fd
      → (0 < size) × Fresh (epoll_build ep so sc al size k p).1
  unfolding epoll_build
  epoll_build-Fresh size k p e_fd h = elim (Bool-cases ((al.alloc ctx_size p).0 == null)) [
    | inl y ↦ let h' : ◌≡◌ {A = Option ℕ} none (some e_fd) = rw y at h in cc
    | inr n ↦
        let p' = (al.alloc ctx_size p).1 in
        let h' : (with_ctx ep so sc al size (sc.epoll_create size k) p').0 ≡ some e_fd =
          rw n at h in
        rw n (with_ctx-Fresh size (sc.epoll_create size k) p' e_fd (create-Fresh size k) h')
  ]
