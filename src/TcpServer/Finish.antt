-- ===== src/TcpServer/Finish.antt =====
-- Sending changes neither `done` nor `error` of a request (src/net/tcp_server.c).
use xpipe.Base.{
  take, drop, ◌<◌, ◌≡◌, ◌⊎◌, inl, inr, refl, arith, true, List, [], ◌∷◌, ◌++◌, Option, none, some,
  Bytes, Bool-cases,
}
use xpipe.Protocol.{is_put}
use xpipe.Connection.{Request, Connection}
use xpipe.TcpServer.{
  Wrote, wrote, again, broken, Sending, all_sent, is_empty, send_loop, tcp_server_send, release,
  tcp_respone_generate, tcp_request_finish,
}

-- the next read has room, or no more is to be read
abbrev pub Readable : Request → Type 0
Readable r = (r.last_buffer.last < r.last_buffer.end) ⊎ (r.done ≡ true) ⊎ (r.error ≡ true)

-- the same of a connection's request, if it has one
abbrev pub ReadableIn : Option Request → Type 0
ReadableIn none = Unit
ReadableIn (some r) = Readable r

abbrev pub Settled : Request → Type 0
Settled r = (r.done ≡ true) ⊎ (r.error ≡ true)

-- no more of the request is to be read, if the call returns
abbrev Kept : Option Sending → Type 0
Kept none = Unit {0}
Kept (some s) = (r : Request) × (s.conn.request ≡ some r) × Settled r

Kept-more :
    (sent : Bytes) (o : Option Sending)
    → Kept o
    → Kept (elim o [ none ↦ none | some s ↦ some (record s { sent = sent ++ s.sent }) ])
Kept-more sent none h = tt
Kept-more sent (some s) h = h

-- sending changes neither `done` nor `error`
send_loop-Kept :
    (ws : List Wrote) (c : Connection) (r : Request) → Settled r → Kept (send_loop ws c r)
unfolding send_loop all_sent
send_loop-Kept [] c r h = tt
send_loop-Kept (again ∷ ws) c r h = (r, refl, h)
send_loop-Kept (broken ∷ ws) c r h = (record r { finish = true }, refl, h)
send_loop-Kept (wrote n ∷ ws) c r h =
    let r' = record r { response = drop n r.response } in
    elim (Bool-cases (is_empty r'.response)) [
      | inl e ↦ rw e (record r' { finish = true }, ground arith, h)
      | inr e ↦ rw e (Kept-more (take n r.response) (send_loop ws c r') (send_loop-Kept ws c r' h))
    ]

-- the call ends with a request that can be read on, or without one
abbrev pub SendingReadable : Option Sending → Type 0
SendingReadable none = Unit {0}
SendingReadable (some s) = ReadableIn s.conn.request

release-Readable : (s : Sending) → Kept (some s) → ReadableIn (release s).conn.request
unfolding release
release-Readable s (r, e, h) = elim (Bool-cases r.finish) [
  | inl k ↦ rw (e, release) (rw k tt)
  | inr k ↦ rw (e, release) (rw k (rw e (inr h)))
]

generate-Settled : (r : Request) → Settled r → Settled (tcp_respone_generate r)
unfolding tcp_respone_generate
generate-Settled r h = elim (Bool-cases (is_put r.protocol.type)) [
  | inl e ↦ rw (e, tcp_respone_generate) h
  | inr e ↦ rw (e, tcp_respone_generate) h
]

pub tcp_request_finish-Readable :
    (ws : List Wrote) (c : Connection) (r : Request)
    → Settled r
    → SendingReadable (tcp_request_finish ws c r)
unfolding tcp_request_finish tcp_respone_generate tcp_server_send
tcp_request_finish-Readable ws c r h =
    through
      (send_loop ws (record c { request = some (tcp_respone_generate r) }) (tcp_respone_generate r))
      (send_loop-Kept ws _ (tcp_respone_generate r) (generate-Settled r h))
  where
    through :
        (o : Option Sending)
        → Kept o
        → SendingReadable (elim o [ none ↦ none | some s ↦ some (release s) ])
    through none k = tt
    through (some s) k = release-Readable s k
