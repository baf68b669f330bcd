-- ===== src/Tests/System.antt =====
-- A system that keeps descriptors as the manuals of epoll, accept and close say, to run
-- src/net/tcp_server.c and src/net/net_event.c on.
use xpipe.Base.{
  ℕ, ◌<◌, ◌≡◌, ◌≢◌, refl, sym, inl, inr, Bool-cases, arith, Bool, true, false, ◌||◌, List, [], ◌∷◌,
  Option, none, some, ◌==◌, if◌then◌else◌, length,
}
use xpipe.Connection.{Events}
use xpipe.NetEvent.{Op, ctl_add, ctl_mod, ctl_del, changed, Epoll}
use xpipe.TcpServer.Accept.{Accepted, accepted, interrupted, refused, opens, Sockets}

-- A descriptor is closed, or open with the events that are watched, if any are. `arriving` is what
-- `accept` gives in turn, but for descriptors that are open.
pub record Descriptors : Type 0 where
  pub fds : ℕ → Option (Option (ℕ × Events))
  pub arriving : List Accepted

abbrev pub set_fd : ℕ → Option (Option (ℕ × Events)) → Descriptors → Descriptors
set_fd fd v k = record k { fds = λ g. if g == fd then v else k.fds g }

abbrev pub events_of : Option (Option (ℕ × Events)) → Option (ℕ × Events)
events_of none = none
events_of (some v) = v

abbrev pub open_of : Option (Option (ℕ × Events)) → Bool
open_of none = false
open_of (some v) = true

pub unwatched : (v : Option (Option (ℕ × Events))) → open_of v ≡ false → events_of v ≡ none
unwatched none h = refl
unwatched (some v) h = cc

pub close-open :
    (fd : ℕ) (k : Descriptors) (g : ℕ)
    → open_of ((set_fd fd none k).fds g) ≡ (if g == fd then false else open_of (k.fds g))
close-open fd k g = ground arith

pub close-interest :
    (fd : ℕ) (k : Descriptors) (g : ℕ)
    → events_of ((set_fd fd none k).fds g) ≡ (if g == fd then none else events_of (k.fds g))
close-interest fd k g = ground arith

abbrev ctl_on :
    Op → ℕ → ℕ → Events → Descriptors → Option (Option (ℕ × Events)) → Bool × Descriptors
ctl_on o fd p e k none = (false, k)
ctl_on ctl_add fd p e k (some none) = (true, set_fd fd (some (some (p, e))) k)
ctl_on ctl_add fd p e k (some (some f)) = (false, k)
ctl_on ctl_mod fd p e k (some none) = (false, k)
ctl_on ctl_mod fd p e k (some (some f)) = (true, set_fd fd (some (some (p, e))) k)
ctl_on ctl_del fd p e k (some none) = (false, k)
ctl_on ctl_del fd p e k (some (some f)) = (true, set_fd fd (some none) k)

module _ (fd p : ℕ) (e : Events) (k : Descriptors) where
  pub ctl-refused :
      (o : Op) (v : Option (Option (ℕ × Events)))
      → (ctl_on o fd p e k v).0 ≡ false
      → (g : ℕ) → events_of ((ctl_on o fd p e k v).1.fds g) ≡ events_of (k.fds g)
  ctl-refused o none h g = refl
  ctl-refused ctl_add (some none) h g = cc
  ctl-refused ctl_add (some (some f)) h g = refl
  ctl-refused ctl_mod (some none) h g = refl
  ctl-refused ctl_mod (some (some f)) h g = cc
  ctl-refused ctl_del (some none) h g = refl
  ctl-refused ctl_del (some (some f)) h g = cc

  pub ctl-accepted :
      (o : Op) (v : Option (Option (ℕ × Events)))
      → (ctl_on o fd p e k v).0 ≡ true
      → (g : ℕ)
      → events_of ((ctl_on o fd p e k v).1.fds g)
        ≡ (if g == fd then changed o p e else events_of (k.fds g))
  ctl-accepted o none h g = cc
  ctl-accepted ctl_add (some none) h g = ground arith
  ctl-accepted ctl_add (some (some f)) h g = cc
  ctl-accepted ctl_mod (some none) h g = cc
  ctl-accepted ctl_mod (some (some f)) h g = ground arith
  ctl-accepted ctl_del (some none) h g = cc
  ctl-accepted ctl_del (some (some f)) h g = ground arith

  pub ctl-changes :
      (v : Option (Option (ℕ × Events)))
      → events_of v ≢ none
      → ((ctl_on ctl_mod fd p e k v).0 ≡ true) × ((ctl_on ctl_del fd p e k v).0 ≡ true)
  ctl-changes none h = absurd (h refl)
  ctl-changes (some none) h = absurd (h refl)
  ctl-changes (some (some f)) h = (refl, refl)

  pub ctl-open :
      (o : Op) (v : Option (Option (ℕ × Events)))
      → k.fds fd ≡ v
      → (g : ℕ) → open_of ((ctl_on o fd p e k v).1.fds g) ≡ open_of (k.fds g)
  ctl-open o none h g = refl
  ctl-open ctl_add (some none) h g = ground arith
  ctl-open ctl_add (some (some f)) h g = refl
  ctl-open ctl_mod (some none) h g = refl
  ctl-open ctl_mod (some (some f)) h g = ground arith
  ctl-open ctl_del (some none) h g = refl
  ctl-open ctl_del (some (some f)) h g = ground arith

abbrev pub epoll : Epoll
epoll = record {
  Kernel = Descriptors;
  ctl = λ o fd p e k. ctl_on o fd p e k (k.fds fd);
  interest = λ k g. events_of (k.fds g);
  refused = λ o fd p e k h. ctl-refused fd p e k o (k.fds fd) h;
  accepted = λ o fd p e k h. ctl-accepted fd p e k o (k.fds fd) h;
  mod_watched = λ fd p e k h. (ctl-changes fd p e k (k.fds fd) h).0;
  del_watched = λ fd p e k h. (ctl-changes fd p e k (k.fds fd) h).1;
}

abbrev accept_from : List Accepted → Descriptors → Accepted × Descriptors
accept_from [] k = (refused, k)
accept_from (interrupted ∷ xs) k = (interrupted, record k { arriving = xs })
accept_from (refused ∷ xs) k = (refused, record k { arriving = xs })
accept_from (accepted fd ∷ xs) k =
    if open_of (k.fds fd)
    then (refused, record k { arriving = xs })
    else (accepted fd, set_fd fd (some none) (record k { arriving = xs }))

pub accept-new :
    (xs : List Accepted) (k : Descriptors) (g : ℕ)
    → opens (accept_from xs k).0 g ≡ true
    → open_of (k.fds g) ≡ false
accept-new [] k g h = cc
accept-new (interrupted ∷ xs) k g h = cc
accept-new (refused ∷ xs) k g h = cc
accept-new (accepted fd ∷ xs) k g h = elim (Bool-cases (open_of (k.fds fd))) [
  | inl e ↦ let h' : false ≡ true = rw e at h in cc
  | inr e ↦ let h' : (g == fd) ≡ true = rw e at h in let it : g ≡ fd = ground (arith, h') in rw it e
]

pub accept-open :
    (xs : List Accepted) (k : Descriptors) (g : ℕ)
    → open_of ((accept_from xs k).1.fds g) ≡ (opens (accept_from xs k).0 g || open_of (k.fds g))
accept-open [] k g = refl
accept-open (interrupted ∷ xs) k g = refl
accept-open (refused ∷ xs) k g = refl
accept-open (accepted fd ∷ xs) k g = elim (Bool-cases (open_of (k.fds fd))) [
  | inl e ↦ rw e refl
  | inr e ↦ rw e (ground arith)
]

pub accept-interest :
    (xs : List Accepted) (k : Descriptors) (g : ℕ)
    → events_of ((accept_from xs k).1.fds g) ≡ events_of (k.fds g)
accept-interest [] k g = refl
accept-interest (interrupted ∷ xs) k g = refl
accept-interest (refused ∷ xs) k g = refl
accept-interest (accepted fd ∷ xs) k g = elim (Bool-cases (open_of (k.fds fd))) [
  | inl e ↦ rw e refl
  | inr e ↦ rw e (elim (Bool-cases (g == fd)) [
    | inl n ↦ let it : g ≡ fd = ground (arith, n) in rw (n, it) (sym (unwatched (k.fds fd) e))
    | inr n ↦ rw n refl
  ])
]

pub accept-interrupted :
    (xs : List Accepted) (k : Descriptors)
    → (accept_from xs k).0 ≡ interrupted
    → length (accept_from xs k).1.arriving < length xs
accept-interrupted [] k h = cc
accept-interrupted (interrupted ∷ xs) k h = omega arith
accept-interrupted (refused ∷ xs) k h = cc
accept-interrupted (accepted fd ∷ xs) k h = ground (arith, h)

-- sockets on it, where memory never runs out
abbrev pub sockets : Sockets epoll
sockets = record {
  is_open = λ k g. open_of (k.fds g);
  close_fd = λ fd k. set_fd fd none k;
  accept = λ s k. accept_from k.arriving k;
  set_nonblock = λ fd k. (true, k);
  set_nodelay = λ fd k. (true, k);
  pool_created = λ k. (true, k);
  address_memory = λ k. (true, k);
  interruptions = λ k. length k.arriving;
  close-open = λ fd k g. close-open fd k g;
  close-interest = λ fd k g. close-interest fd k g;
  closed_unwatched = λ k g h. unwatched (k.fds g) h;
  ctl-open = λ o fd p e k g. ctl-open fd p e k o (k.fds fd) refl g;
  accept-new = λ s k g h. accept-new k.arriving k g h;
  accept-open = λ s k g. accept-open k.arriving k g;
  accept-interest = λ s k g. accept-interest k.arriving k g;
  accept-interrupted = λ s k h. accept-interrupted k.arriving k h;
  nonblock-same = λ fd k g. (refl, refl);
  nodelay-same = λ fd k g. (refl, refl);
  pool-same = λ k g. (refl, refl);
  address-same = λ k g. (refl, refl);
}
