-- ===== src/TcpServer/Room.antt =====
-- A request that is still being read has room in its last buffer (src/net/tcp_server.c).
use xpipe.Base.{
  ℕ, ◌+◌, ◌≤◌, ◌<◌, ◌≡◌, inl, inr, refl, subst, arith, true, List, [], ◌∷◌, Option, none, some,
  null, ◌==◌, length, Bool-cases, Option-cases,
}
use xpipe.Memory.{Mem}
use xpipe.Allocator.{Allocator}
use xpipe.Protocol.{Protocol, Ret, protocol_ok, protocol_done}
use xpipe.Connection.{Request, Connection}
use xpipe.TcpServer.{Wrote, Sending, tcp_request_finish}
use xpipe.TcpServer.Process.{
  buffer_min_size, clamp_size, Got, received, would_block, failed, new_buffer, init_from,
  tcp_request_init, finished, extend, tcp_request_process, parsed, recv_on, tcp_server_recv,
}
use xpipe.TcpServer.Finish.{
  Readable, ReadableIn, Settled, SendingReadable, tcp_request_finish-Readable,
}

-- what `read` gives fits the buffer that it reads into, of a new request the first one
abbrev pub Fits : ℕ → Option Request → Got → Type 0
Fits size none (received bs) = length bs ≤ clamp_size size
Fits size (some r) (received bs) = r.last_buffer.last + length bs ≤ r.last_buffer.end
Fits size r would_block = Unit
Fits size r failed = Unit

module _ (al : Allocator) where
  open al use {Pool, alloc}

  abbrev Processed : Option (Sending × Pool) → Type 0
  Processed none = Unit {0}
  Processed (some (s, p)) = ReadableIn s.conn.request

  -- the call ends with a request that can be read on, or without one
  abbrev pub Received : Option (Sending × Pool × Mem) → Type 0
  Received none = Unit {0}
  Received (some (s, p, m)) = ReadableIn s.conn.request

  finished-Processed :
      (ws : List Wrote) (c : Connection) (r : Request) (p : Pool)
      → Settled r
      → Processed (finished al ws c r p)
  finished-Processed ws c r p h =
      through (tcp_request_finish ws c r) (tcp_request_finish-Readable ws c r h)
    where
      through :
          (o : Option Sending)
          → SendingReadable o
          → Processed (elim o [ none ↦ none | some s ↦ some (s, p) ])
      through none k = tt
      through (some s) k = k

  extend-Processed :
      (ws : List Wrote) (c : Connection) (r : Request) (p : Pool)
      → Processed (extend al ws c r (new_buffer al buffer_min_size p))
  unfolding extend new_buffer
  extend-Processed ws c r p = elim (Bool-cases ((alloc (buffer_min_size + 32) p).0 == null)) [
    | inl e ↦ rw e (finished-Processed ws c (record r { error = true }) _ (inr refl))
    | inr e ↦ rw e (inl (omega arith))
  ]

  tcp_request_process-Processed :
      (ret : Ret) (ws : List Wrote) (c : Connection) (r : Request) (p : Pool)
      → r.last_buffer.last ≤ r.last_buffer.end
      → Processed (tcp_request_process al ret ws c r p)
  unfolding tcp_request_process
  tcp_request_process-Processed protocol_ok ws c r p h =
      elim (Bool-cases (r.last_buffer.last == r.last_buffer.end)) [
        | inl e ↦ rw e (extend-Processed ws c r p)
        | inr e ↦ rw e (inl (ground arith))
      ]
  tcp_request_process-Processed protocol_done ws c r p h =
      finished-Processed ws c (record r { done = true }) p (inl refl)
  tcp_request_process-Processed _ ws c r p h =
      finished-Processed ws c (record r { error = true }) p (inr refl)

  parsed-Received :
      (ws : List Wrote) (c : Connection) (r : Request) (n : ℕ) (p : Pool) (o : Ret × Protocol × Mem)
      → r.last_buffer.last + n ≤ r.last_buffer.end
      → Received (parsed al ws c r n p o)
  unfolding parsed
  parsed-Received ws c r n p (ret, pro, m) h =
      let b = r.last_buffer in
      let r' = record r { protocol = pro; last_buffer = record b { last = b.last + n } } in
      through (tcp_request_process al ret ws c r' p) (tcp_request_process-Processed ret ws c r' p h)
    where
      through :
          (o : Option (Sending × Pool))
          → Processed o
          → Received (elim o [ none ↦ none | some (s, p') ↦ some (s, p', m) ])
      through none k = tt
      through (some (s, p')) k = k

  recv_on-Received :
      (size : ℕ) (g : Got) (ws : List Wrote) (c : Connection) (r : Request) (p : Pool) (m : Mem)
      → c.request ≡ some r
      → Readable r
      → Fits size (some r) g
      → Received (recv_on al g ws c r p m)
  unfolding recv_on
  recv_on-Received size (received []) ws c r p m e h f = rw e h
  recv_on-Received size (received (x ∷ xs)) ws c r p m e h f =
      parsed-Received ws c r (length (x ∷ xs)) p _ f
  recv_on-Received size would_block ws c r p m e h f = rw e h
  recv_on-Received size failed ws c r p m e h f = rw e h

  -- a request just set up has an empty buffer of the clamped size
  abbrev Started : ℕ → Option (Request × Pool) → Type 0
  Started size none = Unit {0}
  Started size (some (r, p)) =
      (r.last_buffer.last + clamp_size size ≡ r.last_buffer.end) × (0 < clamp_size size)

  tcp_request_init-Started :
      (size : ℕ) (created : Option Pool) → Started size (tcp_request_init al size created)
  unfolding tcp_request_init init_from new_buffer clamp_size
  tcp_request_init-Started size none = tt
  tcp_request_init-Started size (some p) = ground arith

  -- A connection with no request, or with one that has room in its last buffer or is done or in
  -- error, is left by `tcp_server_recv` in the same way, whatever `read` gives within the room
  -- that it is offered, whatever `write` answers and whether or not there is memory. So a request
  -- that is still being read never asks `read` for no bytes, whose answer would look like the end
  -- of the stream.
  pub tcp_server_recv-Readable :
      (size : ℕ) (created : Option Pool) (g : Got) (ws : List Wrote) (c : Connection) (p : Pool)
      (m : Mem)
      → ReadableIn c.request
      → Fits size c.request g
      → Received (tcp_server_recv al size created g ws c p m)
  unfolding tcp_server_recv
  tcp_server_recv-Readable size created g ws c p m h f = elim (Option-cases c.request) [
    | inr (r, e) ↦
        rw (e, tcp_server_recv)
          (recv_on-Received size g ws c r p m e (subst ReadableIn e h)
            (subst (λ t. Fits size t g) e f))
    | inl e ↦
        rw (e, tcp_server_recv)
          (through (tcp_request_init al size created) (tcp_request_init-Started size created)
            (subst (λ t. Fits size t g) e f))
  ]
    where
      first :
          (r : Request) (p' : Pool) (g : Got)
          → r.last_buffer.last + clamp_size size ≡ r.last_buffer.end
          → Fits size none g
          → Fits size (some r) g
      first r p' (received bs) k t = omega (arith, k, t)
      first r p' would_block k t = tt
      first r p' failed k t = tt

      through :
          (o : Option (Request × Pool))
          → Started size o
          → Fits size none g
          → Received (elim o [
            | none ↦ some (record { conn = c; sent = []; answers = ws }, p, m)
            | some (r, p') ↦ recv_on al g ws (record c { request = some r }) r p' m
          ])
      through none k t = h
      through (some (r, p')) k t =
          recv_on-Received size g ws (record c { request = some r }) r p' m refl
            (inl (omega (arith, k.0, k.1))) (first r p' g k.0 t)
