-- ===== src/Connection.antt =====
-- The data that src/net/tcp_server.h and src/net/net_event.h share: connections, their requests
-- and the events on them.
use xpipe.Base.{ℕ, Bool, true, false, not, ◌&&◌, ◌||◌, Option, Bytes, Ptr}
use xpipe.Protocol.{Protocol}

-- the bits EV_READ_EVENT and EV_WRITE_EVENT of an `int`
pub record Events : Type 0 where
  pub read : Bool
  pub write : Bool

abbrev pub ev_none_event : Events
ev_none_event = record { read = false; write = false }

abbrev pub ev_read_event : Events
ev_read_event = record { read = true; write = false }

abbrev pub ev_write_event : Events
ev_write_event = record { read = false; write = true }

abbrev pub ev_both_events : Events
ev_both_events = record { read = true; write = true }

-- `e | f`, `e & ~f`, and whether `e` is not 0
abbrev pub join_events : Events → Events → Events
join_events e f = record { read = e.read || f.read; write = e.write || f.write }

abbrev pub minus_events : Events → Events → Events
minus_events e f = record { read = e.read && not f.read; write = e.write && not f.write }

abbrev pub any_event : Events → Bool
any_event e = e.read || e.write

-- the functions that an event may call
pub data Handler : Type 0 where
  tcp_server_accept tcp_server_recv tcp_server_send : Handler

-- `buffer_t`, but for its `next`; `buffer` is where its bytes begin
pub record Buffer : Type 0 where
  pub buffer : Ptr
  pub last : Ptr
  pub end : Ptr

-- Of a `tcp_request_t`: its protocol record, the buffer that is read into, the bytes of
-- `response` between `buffer` and `last`, and its flags. `error` is true for any value but 0.
pub record Request : Type 0 where
  pub protocol : Protocol
  pub last_buffer : Buffer
  pub response : Bytes
  pub done : Bool
  pub finish : Bool
  pub error : Bool

-- `tcp_connection_t`, but for the client's address and the pools; `none` stands for NULL
pub record Connection : Type 0 where
  pub address : ℕ
  pub conn_fd : ℕ
  pub events : Events
  pub active_events : Events
  pub dead_events : Events
  pub add_events : Events
  pub close : Bool
  pub is_listen : Bool
  pub read_event_handler : Option Handler
  pub write_event_handler : Option Handler
  pub request : Option Request
