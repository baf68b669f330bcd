-- ===== src/EventLoop/Polling.antt =====
-- `epoll_polling` (src/net/net_epoll.c) leaves the connections as the system has them.
use xpipe.Base.{
  ℕ, ◌<◌, ◌≤◌, ◌≡◌, inl, inr, refl, ◌∙◌, sym, ap, subst, arith, true, Bool-cases, List, [], ◌∷◌,
  Option, none, some, ◌==◌, if◌then◌else◌, count,
}
use xpipe.Connection.{Events, any_event}
use xpipe.NetEvent.{Epoll}
use xpipe.TcpServer.ConnectionPool.{relink}
use xpipe.TcpServer.Slots.{linked-Partition}
use xpipe.TcpServer.Accept.{Sockets, Table}
use xpipe.EventLoop.{poll_one, epoll_polling}
use xpipe.EventLoop.Links.{newest_first, count-newest_first}
use xpipe.EventLoop.Consistent.{IsConsistent}

module _ (ep : Epoll) (so : Sockets ep) where
  open ep use {Kernel, interest}
  open so use {is_open}

  -- polling changes neither descriptors nor the events that connections say
  pub poll_one-IsConsistent :
      (n i : ℕ) (e : Events) (h : Option ℕ) (k : Kernel) (t : Table) (used : List ℕ)
      → 0 < count i used
      → IsConsistent ep so n k t used
      → IsConsistent ep so n k (poll_one i e h t) used
  unfolding poll_one relink
  poll_one-IsConsistent n i e h k t used u v = record {
    partition = linked-Partition n t.pool used i h v.partition u;
    registered = λ j w.
        subst
          (λ (p : ℕ × ℕ × Events).
            interest k p.1 ≡ (if any_event p.2 then some (p.0, p.2) else none))
          (sym (same j)) (v.registered j w);
    opened =
        λ j w. subst (λ (p : ℕ × ℕ × Events). is_open k p.1 ≡ true) (sym (same j)) (v.opened j w);
    apart = λ a b x y q. v.apart a b x y (
        sym (ap (λ (p : ℕ × ℕ × Events). p.1) (same a))
        ∙ q
        ∙ ap (λ (p : ℕ × ℕ × Events). p.1) (same b));
    placed = λ j w. subst (λ (p : ℕ × ℕ × Events). p.0 ≡ j) (sym (same j)) (v.placed j w);
    owned = λ g a x h.
        let (there, its) = v.owned g a x h in
        (there, subst (λ (p : ℕ × ℕ × Events). p.1 ≡ g) (sym (same a)) its);
  }
    where
      same :
          (j : ℕ)
          → ◌≡◌ {A = ℕ × ℕ × Events}
              (
                ((poll_one i e h t).slots j).address,
                ((poll_one i e h t).slots j).conn_fd,
                ((poll_one i e h t).slots j).events,
              )
              ((t.slots j).address, (t.slots j).conn_fd, (t.slots j).events)
      same j = elim (Bool-cases (j == i)) [
        | inl e ↦ let it : j ≡ i = ground (arith, e) in rw (e, it) refl
        | inr e ↦ rw e refl
      ]

  pub epoll_polling-IsConsistent :
      (n : ℕ) (ready : List (ℕ × Events)) (js : List ℕ) (h : Option ℕ) (k : Kernel) (t : Table)
      (used : List ℕ)
      → ((j : ℕ) → count j (newest_first ready js) ≤ count j used)
      → IsConsistent ep so n k t used
      → IsConsistent ep so n k (epoll_polling ready h t).1 used
  unfolding epoll_polling
  epoll_polling-IsConsistent n [] js h k t used within v = v
  epoll_polling-IsConsistent n ((i, e) ∷ ready) js h k t used within v =
      let there = count-newest_first i ready (i ∷ js) in
      let room = within i in
      epoll_polling-IsConsistent n ready (i ∷ js) (some i) k (poll_one i e h t) used within
        (poll_one-IsConsistent n i e h k t used (ground (arith, there, room)) v)
