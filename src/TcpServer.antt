-- ===== src/TcpServer.antt =====
-- src/net/tcp_server.c: a request's buffers, its processing, and the sending of its response.
pub mod Send
pub mod Process
pub mod Finish
pub mod Room
pub mod ConnectionPool
pub mod Accept
pub mod Descriptors
pub mod Taken
pub mod Owned
pub mod Setup
pub mod Listening
pub mod Slots
pub mod KeepsEvents
use xpipe.Base.{
  ℕ, take, drop, ◌+◌, ◌*◌, ◌-◌, ◌≤◌, Bool, true, false, not, List, [], ◌∷◌, ◌++◌, Option, none,
  some, Bytes, Ptr, null, ltb, ◌==◌, if◌then◌else◌, length,
}
use xpipe.Memory.{Mem}
use xpipe.Allocator.{Allocator}
use xpipe.Protocol.{
  Protocol, protocol_init, protocol_parse, RequestType, put_t, Ret, protocol_ok, protocol_error,
  protocol_done, is_put,
}
use xpipe.Connection.{
  Events, ev_none_event, ev_read_event, ev_write_event, ev_both_events, Buffer, Request, Connection,
}

-- what a call of `write` gives: the bytes taken, EAGAIN, or another error
pub data Wrote : Type 0 where
  wrote : ℕ → Wrote
  again broken : Wrote

abbrev pub is_empty : Bytes → Bool
is_empty [] = true
is_empty (c ∷ cs) = false

-- what a call has reached: the connection, the bytes that went to the client, and the answers of
-- `write` that are left
pub record Sending : Type 0 where
  pub conn : Connection
  pub sent : Bytes
  pub answers : List Wrote

-- the end of the loop, all bytes sent
unfoldable pub all_sent : Connection → Request → Connection
all_sent c r =
    let c' = record c { request = some (record r { finish = true }) } in
    if c.events.write
    then record c' { dead_events = ev_write_event; write_event_handler = none }
    else c'

-- The `for` of `tcp_server_send` on the request `r` of `c`, with the answers of `write`; `none` if
-- they run out.
unfoldable pub send_loop : List Wrote → Connection → Request → Option Sending
unfolding all_sent
send_loop [] c r = none
send_loop (again ∷ ws) c r = some (record {
  conn = record c { add_events = ev_write_event; request = some r };
  sent = [];
  answers = ws;
})
send_loop (broken ∷ ws) c r = some (record {
  conn = record c {
    dead_events = ev_both_events;
    close = true;
    request = some (record r { finish = true });
  };
  sent = [];
  answers = ws;
})
send_loop (wrote n ∷ ws) c r =
    let r' = record r { response = drop n r.response } in
    let rest = send_loop ws c r' in
    if is_empty r'.response
    then some (record { conn = all_sent c r'; sent = take n r.response; answers = ws })
    else elim rest [ none ↦ none | some s ↦ some (record s { sent = take n r.response ++ s.sent }) ]

-- `tcp_server_send`
unfoldable pub tcp_server_send : List Wrote → Connection → Option Sending
tcp_server_send ws c = elim c.request [
  | none ↦ some (record { conn = c; sent = []; answers = ws })
  | some r ↦ send_loop ws c r
]

-- "error\r\n" and "ok\r\n"
abbrev pub text_error : Bytes
text_error = b'e' ∷ b'r' ∷ b'r' ∷ b'o' ∷ b'r' ∷ b'\r' ∷ b'\n' ∷ []

abbrev pub text_ok : Bytes
text_ok = b'o' ∷ b'k' ∷ b'\r' ∷ b'\n' ∷ []

-- `tcp_respone_generate`
unfoldable pub tcp_respone_generate : Request → Request
tcp_respone_generate r =
    if is_put r.protocol.type
    then record r { response = r.response ++ (if r.error then text_error else text_ok) }
    else r

-- the end of `tcp_request_finish`
unfoldable pub release : Sending → Sending
release s = elim s.conn.request [
  | none ↦ s
  | some r ↦ if r.finish then record s { conn = record (s.conn) { request = none } } else s
]

-- `tcp_request_finish`, on the request `r` of `c`
unfoldable pub tcp_request_finish : List Wrote → Connection → Request → Option Sending
unfolding tcp_server_send tcp_respone_generate release
tcp_request_finish ws c r =
    elim (tcp_server_send ws (record c { request = some (tcp_respone_generate r) })) [
      | none ↦ none
      | some s ↦ some (release s)
    ]
