-- ===== src/EventLoop/Accepted.antt =====
-- `tcp_server_accept` (src/net/tcp_server.c) leaves the connections as the system has them.
use xpipe.Base.{
  ℕ, ◌<◌, ◌≡◌, inl, inr, ◌∙◌, sym, ap, arith, true, false, Bool-cases, List, ◌∷◌, ◌==◌, count,
}
use xpipe.Connection.{Connection}
use xpipe.NetEvent.{Epoll}
use xpipe.TcpServer.Accept.{Sockets, Table, store}
use xpipe.TcpServer.Owned.{SameSlots, NoneTaken, OneTaken}
use xpipe.EventLoop.Consistent.{IsConsistent}

module _ (ep : Epoll) (so : Sockets ep) where
  open ep use {Kernel, interest}
  open so use {is_open}

  same_slots :
      (i : ℕ) (c : Connection) (t t' : Table) (used : List ℕ) (j : ℕ)
      → SameSlots t t' used
      → 0 < count j used
      → (store i c t').slots j ≡ (store i c t).slots j
  same_slots i c t t' used j same u = let s = same j u in ground (arith, s.0)

  -- `tcp_server_accept`, called for the connection in a slot
  pub NoneTaken-IsConsistent :
      (n i : ℕ) (k k' : Kernel) (c : Connection) (t t' : Table) (used : List ℕ)
      → IsConsistent ep so n k (store i c t) used
      → NoneTaken ep so n k t used k' t'
      → IsConsistent ep so n k' (store i c t') used
  NoneTaken-IsConsistent n i k k' c t t' used v (p, same, left) = record {
    partition = p;
    registered = λ j u.
        let s = same_slots i c t t' used j same u in
        rw s ((left ((store i c t).slots j).conn_fd).1 ∙ v.registered j u);
    opened = λ j u.
        let s = same_slots i c t t' used j same u in
        rw s ((left ((store i c t).slots j).conn_fd).0 ∙ v.opened j u);
    apart = λ a b x y e. v.apart a b x y (
        sym (ap (λ (q : Connection). q.conn_fd) (same_slots i c t t' used a same x))
        ∙ e
        ∙ ap (λ (q : Connection). q.conn_fd) (same_slots i c t t' used b same y));
    placed = λ j u. let s = same_slots i c t t' used j same u in rw s (v.placed j u);
    owned = λ g a e h.
        let (there, its) = v.owned g a e (sym (left g).1 ∙ h) in
        let s = same_slots i c t t' used a same there in (there, rw s its);
  }

  pub OneTaken-IsConsistent :
      (n i : ℕ) (k k' : Kernel) (c : Connection) (t t' : Table) (used : List ℕ)
      → 0 < count i used
      → IsConsistent ep so n k (store i c t) used
      → (o : OneTaken ep so n k t used k' t') → IsConsistent ep so n k' (store i c t') (o.1 ∷ used)
  OneTaken-IsConsistent n i k k' c t t' used u v
        (fd, x, p, same, new, opened, watching, its_place, its_fd, its_events, rd, de) =
      record {
        partition = p;
        registered = λ j w. elim (Bool-cases (x == j)) [
          | inl e ↦
              let slot = new_slot j e in
              let now = watching fd in
              rw slot (rw (its_fd, its_events, its_place) (ground (arith, now)))
          | inr e ↦
              let (there, s, far) = old_slot j w e in
              let now = watching ((store i c t).slots j).conn_fd in
              let before = v.registered j there in rw s (ground (arith, now, far, before))
        ];
        opened = λ j w. elim (Bool-cases (x == j)) [
          | inl e ↦
              let slot = new_slot j e in
              let now = opened fd in rw slot (rw its_fd (ground (arith, now)))
          | inr e ↦
              let (there, s, far) = old_slot j w e in
              let now = opened ((store i c t).slots j).conn_fd in
              let before = v.opened j there in rw s (ground (arith, now, far, before))
        ];
        apart = λ a b y z e. elim (Bool-cases (x == a)) [
          | inl ea ↦ elim (Bool-cases (x == b)) [
            | inl eb ↦ ground (arith, ea, eb)
            | inr eb ↦ absurd (clash a b z ea eb e)
          ]
          | inr ea ↦ elim (Bool-cases (x == b)) [
            | inl eb ↦ absurd (clash b a y eb ea (sym e))
            | inr eb ↦
                let (there, s, far) = old_slot a y ea in
                let (there', s', far') = old_slot b z eb in
                v.apart a b there there' (
                  sym (ap (λ (q : Connection). q.conn_fd) s)
                  ∙ e
                  ∙ ap (λ (q : Connection). q.conn_fd) s')
          ]
        ];
        placed = λ j w. elim (Bool-cases (x == j)) [
          | inl e ↦
              let slot = new_slot j e in
              let same_x : x ≡ j = ground (arith, e) in rw slot (its_place ∙ same_x)
          | inr e ↦ let (there, s, far) = old_slot j w e in rw s (v.placed j there)
        ];
        owned = λ g a e h. elim (Bool-cases (g == fd)) [
          | inl q ↦
              let now = watching g in
              let it : x ≡ a = ground (arith, h, now, q) in
              let slot = new_slot a (ground (arith, it)) in
              (ground (arith, it), rw slot (ground (arith, its_fd, q)))
          | inr q ↦
              let now = watching g in
              let (there, its) = v.owned g a e (ground (arith, h, now, q)) in
              let s = same_slots i c t t' used a same there in (ground (arith, there), rw s its)
        ];
      }
    where
      new_slot : (j : ℕ) → (x == j) ≡ true → (store i c t').slots j ≡ t'.slots x
      new_slot j e =
          let once = p.2 x in
          let same_x : x ≡ j = ground (arith, e) in ground (arith, once, u, same_x)

      old_slot :
          (j : ℕ)
          → 0 < count j (x ∷ used)
          → (x == j) ≡ false
          → (0 < count j used)
            × ((store i c t').slots j ≡ (store i c t).slots j)
            × ((((store i c t).slots j).conn_fd == fd) ≡ false)
      old_slot j w e =
          let there : 0 < count j used = ground (arith, w, e) in
          let before = v.opened j there in
          (
            there,
            same_slots i c t t' used j same there,
            elim (Bool-cases (((store i c t).slots j).conn_fd == fd)) [
              | inr far ↦ far
              | inl near ↦
                  let it : ((store i c t).slots j).conn_fd ≡ fd = ground (arith, near) in
                  absurd (ground (arith, ap (is_open k) it, before, new))
            ],
          )

      clash :
          (a b : ℕ)
          → 0 < count b (x ∷ used)
          → (x == a) ≡ true
          → (x == b) ≡ false
          → ((store i c t').slots a).conn_fd ≡ ((store i c t').slots b).conn_fd
          → ⊥
      clash a b z ea eb e =
          let (there, s, far) = old_slot b z eb in
          let slot = ap (λ (q : Connection). q.conn_fd) (new_slot a ea) in
          let it = sym (ap (λ (q : Connection). q.conn_fd) s) ∙ sym e ∙ slot ∙ its_fd in
          ground (arith, it, far)
