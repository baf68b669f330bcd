-- ===== src/TcpServer/KeepsEvents.antt =====
-- The handlers of src/net/tcp_server.c leave the events of their connection to the event driver.
use xpipe.Base.{
  ℕ, ◌+◌, ◌≡◌, ◌⊎◌, refl, arith, Bool, true, false, List, [], ◌∷◌, ◌++◌, Option, none, some, Bytes,
  ◌==◌, if◌then◌else◌, length, take, drop, Bool-cases, Option-cases, inl, inr,
}
use xpipe.Memory.{Mem}
use xpipe.Allocator.{Allocator}
use xpipe.Protocol.{Protocol, Ret, protocol_ok, protocol_done}
use xpipe.Connection.{ev_both_events, Buffer, Request, Connection}
use xpipe.TcpServer.{
  Wrote, wrote, again, broken, is_empty, Sending, all_sent, send_loop, tcp_server_send, release,
  tcp_respone_generate, tcp_request_finish,
}
use xpipe.TcpServer.Process.{
  Got, received, would_block, failed, new_buffer, tcp_request_init, finished, extend,
  tcp_request_process, parsed, recv_on, tcp_server_recv, buffer_min_size,
}

abbrev pub SameEvents : Connection → Connection → Type 0
SameEvents c c' = (c'.address ≡ c.address) × (c'.conn_fd ≡ c.conn_fd) × (c'.events ≡ c.events)

-- the handler of write events is taken away only with the events themselves
abbrev pub SameHandlers : Connection → Connection → Type 0
SameHandlers c c' =
    (c'.active_events ≡ c.active_events)
    × (c'.read_event_handler ≡ c.read_event_handler)
    × (c.dead_events.write ≡ true → c'.dead_events.write ≡ true)
    × ((c'.write_event_handler ≡ c.write_event_handler) ⊎ (c'.dead_events.write ≡ true))

abbrev pub Leaves : Connection → Connection → Type 0
Leaves c c' = SameEvents c c' × SameHandlers c c'

pub unchanged : (c : Connection) → Leaves c c
unchanged c = ((refl, refl, refl), (refl, refl, λ d. d, inl refl))

-- to be closed, with all events given up
closed : (c : Connection) → Leaves c (record c { dead_events = ev_both_events; close = true })
closed c = ((refl, refl, refl), (refl, refl, λ d. refl, inr refl))

-- if the call returns
abbrev pub Keeps : Connection → Option Sending → Type 0
Keeps c none = Unit {0}
Keeps c (some s) = Leaves c s.conn

Keeps-more :
    (c : Connection) (sent : Bytes) (o : Option Sending)
    → Keeps c o
    → Keeps c (elim o [ none ↦ none | some s ↦ some (record s { sent = sent ++ s.sent }) ])
Keeps-more c sent none h = tt
Keeps-more c sent (some s) h = h

all_sent-Leaves : (c : Connection) (r : Request) → Leaves c (all_sent c r)
unfolding all_sent
all_sent-Leaves c r = (
  (ground arith, ground arith, ground arith),
  (ground arith, ground arith, λ d. ground arith, write_Leaves),
)
  where
    write_Leaves :
        ((all_sent c r).write_event_handler ≡ c.write_event_handler)
        ⊎ ((all_sent c r).dead_events.write ≡ true)
    write_Leaves = elim (Bool-cases c.events.write) [
      | inl e ↦ inr (ground (arith, e))
      | inr e ↦ inl (ground (arith, e))
    ]

Keeps-if :
    (c : Connection) (b : Bool) (x y : Option Sending)
    → Keeps c x
    → Keeps c y
    → Keeps c (if b then x else y)
Keeps-if c true x y h g = h
Keeps-if c false x y h g = g

send_loop-Keeps : (ws : List Wrote) (c : Connection) (r : Request) → Keeps c (send_loop ws c r)
unfolding send_loop
send_loop-Keeps [] c r = tt
send_loop-Keeps (again ∷ ws) c r = unchanged c
send_loop-Keeps (broken ∷ ws) c r = closed c
send_loop-Keeps (wrote n ∷ ws) c r =
    let r' = record r { response = drop n r.response } in
    Keeps-if c (is_empty r'.response) _ _ (all_sent-Leaves c r')
      (Keeps-more c (take n r.response) (send_loop ws c r') (send_loop-Keeps ws c r'))

pub tcp_server_send-Keeps : (ws : List Wrote) (c : Connection) → Keeps c (tcp_server_send ws c)
unfolding tcp_server_send
tcp_server_send-Keeps ws c = elim (Option-cases c.request) [
  | inl e ↦ rw (e, tcp_server_send) (unchanged c)
  | inr (r, e) ↦ rw (e, tcp_server_send) (send_loop-Keeps ws c r)
]

release-Leaves : (c : Connection) (s : Sending) → Leaves c s.conn → Leaves c (release s).conn
unfolding release
release-Leaves c s h = elim (Option-cases s.conn.request) [
  | inl e ↦ rw (e, release) h
  | inr (r, e) ↦ elim (Bool-cases r.finish) [
    | inl k ↦ rw (e, release) (rw k h)
    | inr k ↦ rw (e, release) (rw k h)
  ]
]

tcp_request_finish-Keeps :
    (ws : List Wrote) (c : Connection) (r : Request) → Keeps c (tcp_request_finish ws c r)
unfolding tcp_request_finish
tcp_request_finish-Keeps ws c r =
    let c' = record c { request = some (tcp_respone_generate r) } in
    through (tcp_server_send ws c') (tcp_server_send-Keeps ws c')
  where
    through :
        (o : Option Sending)
        → Keeps c o
        → Keeps c (elim o [ none ↦ none | some s ↦ some (release s) ])
    through none k = tt
    through (some s) k = release-Leaves c s k

module _ (al : Allocator) where
  open al use {Pool, alloc}

  abbrev KeepsIn : Connection → Option (Sending × Pool) → Type 0
  KeepsIn c none = Unit {0}
  KeepsIn c (some (s, p)) = Leaves c s.conn

  abbrev pub KeepsOf : Connection → Option (Sending × Pool × Mem) → Type 0
  KeepsOf c none = Unit {0}
  KeepsOf c (some (s, p, m)) = Leaves c s.conn

  finished-KeepsIn :
      (ws : List Wrote) (c : Connection) (r : Request) (p : Pool) → KeepsIn c (finished al ws c r p)
  finished-KeepsIn ws c r p = through (tcp_request_finish ws c r) (tcp_request_finish-Keeps ws c r)
    where
      through :
          (o : Option Sending)
          → Keeps c o
          → KeepsIn c (elim o [ none ↦ none | some s ↦ some (s, p) ])
      through none k = tt
      through (some s) k = k

  extend-KeepsIn :
      (ws : List Wrote) (c : Connection) (r : Request) (b : Option Buffer × Pool)
      → KeepsIn c (extend al ws c r b)
  unfolding extend
  extend-KeepsIn ws c r (none, p) = finished-KeepsIn ws c (record r { error = true }) p
  extend-KeepsIn ws c r (some b, p) = unchanged c

  tcp_request_process-KeepsIn :
      (ret : Ret) (ws : List Wrote) (c : Connection) (r : Request) (p : Pool)
      → KeepsIn c (tcp_request_process al ret ws c r p)
  unfolding tcp_request_process
  tcp_request_process-KeepsIn protocol_ok ws c r p =
      elim (Bool-cases (r.last_buffer.last == r.last_buffer.end)) [
        | inl e ↦ rw e (extend-KeepsIn ws c r (new_buffer al buffer_min_size p))
        | inr e ↦ rw e (unchanged c)
      ]
  tcp_request_process-KeepsIn protocol_done ws c r p =
      finished-KeepsIn ws c (record r { done = true }) p
  tcp_request_process-KeepsIn _ ws c r p = finished-KeepsIn ws c (record r { error = true }) p

  parsed-KeepsOf :
      (ws : List Wrote) (c : Connection) (r : Request) (n : ℕ) (p : Pool) (o : Ret × Protocol × Mem)
      → KeepsOf c (parsed al ws c r n p o)
  unfolding parsed
  parsed-KeepsOf ws c r n p (ret, pro, m) =
      let b = r.last_buffer in
      let r' = record r { protocol = pro; last_buffer = record b { last = b.last + n } } in
      through (tcp_request_process al ret ws c r' p) (tcp_request_process-KeepsIn ret ws c r' p)
    where
      through :
          (o : Option (Sending × Pool))
          → KeepsIn c o
          → KeepsOf c (elim o [ none ↦ none | some (s, p') ↦ some (s, p', m) ])
      through none k = tt
      through (some (s, p')) k = k

  recv_on-KeepsOf :
      (g : Got) (ws : List Wrote) (c : Connection) (r : Request) (p : Pool) (m : Mem)
      → KeepsOf c (recv_on al g ws c r p m)
  unfolding recv_on
  recv_on-KeepsOf (received []) ws c r p m = closed c
  recv_on-KeepsOf (received (x ∷ xs)) ws c r p m = parsed-KeepsOf ws c r (length (x ∷ xs)) p _
  recv_on-KeepsOf would_block ws c r p m = unchanged c
  recv_on-KeepsOf failed ws c r p m = closed c

  started_with-KeepsOf :
      (g : Got) (ws : List Wrote) (c : Connection) (p : Pool) (m : Mem)
      (o : Option (Request × Pool))
      → KeepsOf c (elim o [
        | none ↦ some (record { conn = c; sent = []; answers = ws }, p, m)
        | some (r, p') ↦ recv_on al g ws (record c { request = some r }) r p' m
      ])
  started_with-KeepsOf g ws c p m none = unchanged c
  started_with-KeepsOf g ws c p m (some (r, p')) =
      recv_on-KeepsOf g ws (record c { request = some r }) r p' m

  -- Whatever `read` gives, `write` answers and the allocator has left, both handlers of a client's
  -- connection, `tcp_server_recv` and `tcp_server_send`, leave its descriptor and the events that it
  -- says are watched: they only ask the event driver to add events or to give them up. They take the
  -- handler of write events away only together with these events.
  pub handlers-Keep :
      (size : ℕ) (created : Option Pool) (g : Got) (ws : List Wrote) (c : Connection) (p : Pool)
      (m : Mem)
      → KeepsOf c (tcp_server_recv al size created g ws c p m) × Keeps c (tcp_server_send ws c)
  unfolding tcp_server_recv
  handlers-Keep size created g ws c p m = (
    elim (Option-cases c.request) [
      | inl e ↦
          rw (e, tcp_server_recv)
            (started_with-KeepsOf g ws c p m (tcp_request_init al size created))
      | inr (r, e) ↦ rw (e, tcp_server_recv) (recv_on-KeepsOf g ws c r p m)
    ],
    tcp_server_send-Keeps ws c,
  )
