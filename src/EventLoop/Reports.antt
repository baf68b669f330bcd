-- ===== src/EventLoop/Reports.antt =====
-- What `epoll_wait` reports to `epoll_polling` (src/net/net_epoll.c), and that these are connections
-- which are handed out, each once.
use xpipe.Base.{
  ℕ, true, ◌<◌, ◌≤◌, ◌≡◌, inl, inr, ap, arith, Bool-cases, List, [], ◌∷◌, some, ◌==◌, count,
}
use xpipe.Connection.{Events}
use xpipe.NetEvent.{Epoll}
use xpipe.TcpServer.Accept.{Sockets, Table}
use xpipe.EventLoop.Links.{newest_first}
use xpipe.EventLoop.Consistent.{IsConsistent}

module _ (ep : Epoll) where
  open ep use {Kernel, interest}

  -- each report is of a descriptor that is watched, with its pointer and events that are watched,
  -- and of another descriptor than those in front of it, which are `seen`
  abbrev pub Reported : Kernel → List ℕ → List (ℕ × Events) → Type 0
  Reported k seen [] = Unit {0}
  Reported k seen ((i, e) ∷ ready) =
      (fd : ℕ) × (w : Events) × (interest k fd ≡ some (i, w))
      × (e.read ≡ true → w.read ≡ true)
      × (e.write ≡ true → w.write ≡ true)
      × (count fd seen ≡ 0)
      × Reported k (fd ∷ seen) ready

  module _ (so : Sockets ep) (n : ℕ) (k : Kernel) (t : Table) (used : List ℕ)
      (v : IsConsistent ep so n k t used) where
    Reported-behind :
        (ready : List (ℕ × Events)) (seen js : List ℕ)
        → Reported k seen ready
        → ((j : ℕ) → 0 < count j js → 0 < count (t.slots j).conn_fd seen)
        → ((j : ℕ) → count j js ≤ count j used)
        → (j : ℕ) → count j (newest_first ready js) ≤ count j used
    Reported-behind [] seen js r s within = within
    Reported-behind ((i, e) ∷ ready) seen js (fd, w, watching, rd, wr, new, r) s within =
        let (there, its) = v.owned fd i w watching in
        let not_yet : count i js ≡ 0 = elim (Bool-cases (count i js == 0)) [
          | inl z ↦ ground (arith, z)
          | inr z ↦
              let again = s i (ground (arith, z)) in
              let same = ap (λ g. count g seen) its in absurd (omega (arith, again, same, new))
        ] in
        Reported-behind ready (fd ∷ seen) (i ∷ js) r
          (λ j u. elim (Bool-cases (j == i)) [
            | inl q ↦ let it : j ≡ i = ground (arith, q) in rw it (ground (arith, its))
            | inr q ↦ let before = s j (ground (arith, u, q)) in ground (arith, before)
          ])
          (λ j. elim (Bool-cases (j == i)) [
            | inl q ↦ let it : j ≡ i = ground (arith, q) in rw it (ground (arith, not_yet, there))
            | inr q ↦ let before = within j in ground (arith, before, q)
          ])

    -- the connections that are reported are handed out, each at most once
    pub Reported-within :
        (ready : List (ℕ × Events))
        → Reported k [] ready
        → (j : ℕ) → count j (newest_first ready []) ≤ count j used
    Reported-within ready r =
        Reported-behind ready [] [] r (λ j u. absurd (omega arith)) (λ j. omega arith)
