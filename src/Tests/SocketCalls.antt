-- ===== src/Tests/SocketCalls.antt =====
-- The calls that set up the sockets of src/net/tcp_server.c and the epoll of src/net/net_epoll.c, on
-- descriptors as the manuals say.
use xpipe.Base.{
  ℕ, zero, suc, ◌≡◌, refl, ◌∙◌, ap, sym, inl, inr, Bool-cases, arith, true, false, ◌||◌, Option,
  none, some, ◌==◌, if◌then◌else◌,
}
use xpipe.Connection.{Events}
use xpipe.TcpServer.Setup.{gives, ServerCalls}
use xpipe.Tests.System.{Descriptors, set_fd, events_of, open_of, unwatched, epoll, sockets}

-- a call that opens the descriptor `fd`, unless that is open
abbrev open_new : ℕ → Descriptors → Option ℕ × Descriptors
open_new fd k = if open_of (k.fds fd) then (none, k) else (some fd, set_fd fd (some none) k)

module _ (fd : ℕ) (k : Descriptors) (g : ℕ) where
  pub open_new-new : gives (open_new fd k).0 g ≡ true → open_of (k.fds g) ≡ false
  open_new-new h = elim (Bool-cases (open_of (k.fds fd))) [
    | inl e ↦ let h' : false ≡ true = rw e at h in cc
    | inr e ↦
        let h' : (g == fd) ≡ true = rw e at h in let it : g ≡ fd = ground (arith, h') in rw it e
  ]

  pub open_new-open :
      open_of ((open_new fd k).1.fds g) ≡ (gives (open_new fd k).0 g || open_of (k.fds g))
  open_new-open = elim (Bool-cases (open_of (k.fds fd))) [
    | inl e ↦ rw e refl
    | inr e ↦ rw e (ground arith)
  ]

  pub open_new-interest : events_of ((open_new fd k).1.fds g) ≡ events_of (k.fds g)
  open_new-interest = elim (Bool-cases (open_of (k.fds fd))) [
    | inl e ↦ rw e refl
    | inr e ↦ rw e (elim (Bool-cases (g == fd)) [
      | inl n ↦ let it : g ≡ fd = ground (arith, n) in rw (n, it) (sym (unwatched (k.fds fd) e))
      | inr n ↦ rw n refl
    ])
  ]

-- nothing is watched
abbrev unwatch : Option (Option (ℕ × Events)) → Option (Option (ℕ × Events))
unwatch none = none
unwatch (some v) = some none

unwatch-open : (v : Option (Option (ℕ × Events))) → open_of (unwatch v) ≡ open_of v
unwatch-open none = refl
unwatch-open (some v) = refl

unwatch-events : (v : Option (Option (ℕ × Events))) → events_of (unwatch v) ≡ none
unwatch-events none = refl
unwatch-events (some v) = refl

abbrev epoll_new : ℕ → Descriptors → Option ℕ × Descriptors
epoll_new zero k = (none, k)
epoll_new (suc n) k = open_new 3 (record k { fds = λ g. unwatch (k.fds g) })

module _ (k : Descriptors) (g : ℕ) where
  abbrev bare : Descriptors
  bare = record k { fds = λ g. unwatch (k.fds g) }

  pub epoll_new-new : (size : ℕ) → gives (epoll_new size k).0 g ≡ true → open_of (k.fds g) ≡ false
  epoll_new-new zero h = cc
  epoll_new-new (suc n) h = sym (unwatch-open (k.fds g)) ∙ open_new-new 3 bare g h

  pub epoll_new-open :
      (size : ℕ)
      → open_of ((epoll_new size k).1.fds g) ≡ (gives (epoll_new size k).0 g || open_of (k.fds g))
  epoll_new-open zero = refl
  epoll_new-open (suc n) =
      open_new-open 3 bare g ∙ ap (λ b. gives (open_new 3 bare).0 g || b) (unwatch-open (k.fds g))

  pub epoll_new-fresh :
      (size fd : ℕ) → (epoll_new size k).0 ≡ some fd → events_of ((epoll_new size k).1.fds g) ≡ none
  epoll_new-fresh zero fd h = cc
  epoll_new-fresh (suc n) fd h = open_new-interest 3 bare g ∙ unwatch-events (k.fds g)

abbrev pub server_calls : ServerCalls epoll sockets
server_calls = record {
  socket = λ k. open_new 4 k;
  reuse_address = λ fd k. (true, k);
  bind = λ fd port k. (true, k);
  listen = λ fd k. (true, k);
  epoll_create = λ size k. epoll_new size k;
  socket-new = λ k g h. open_new-new 4 k g h;
  socket-open = λ k g. open_new-open 4 k g;
  socket-interest = λ k g. open_new-interest 4 k g;
  reuse_address-same = λ fd k g. (refl, refl);
  bind-same = λ fd port k g. (refl, refl);
  listen-same = λ fd k g. (refl, refl);
  epoll_create-new = λ size k g h. epoll_new-new k g size h;
  epoll_create-open = λ size k g. epoll_new-open k g size;
  epoll_create-fresh = λ size k fd h g. epoll_new-fresh k g size fd h;
  epoll_create-zero = λ k. refl;
}
