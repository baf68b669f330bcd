-- ===== src/TcpServer/Send.antt =====
-- `tcp_server_send` (src/net/tcp_server.c): the bytes of a response go out once and in order.
use xpipe.Base.{ℕ, ◌-◌, ◌≤◌, ◌<◌, ◌≡◌, ◌⊎◌, true, List, [], ◌∷◌, ◌++◌, some}
use xpipe.Connection.{ev_write_event, ev_both_events, Request, Connection}
use xpipe.TcpServer.{Wrote, wrote, Sending}

-- What `write` may answer while `k` bytes are left: it takes no more than these, and some of them
-- if there are any.
abbrev pub Answers : ℕ → List Wrote → Type 0
Answers k [] = Unit
Answers k (wrote n ∷ ws) = (n ≤ k) × ((k ≡ 0) ⊎ (0 < n)) × Answers (k - n) ws
Answers k (_ ∷ ws) = Answers k ws

-- all is sent; or the rest waits for the next write event; or the connection is to be closed
abbrev pub Ended : Connection → Request → Connection → Request → Type 0
Ended c r c' r' =
    ((r'.response ≡ []) × (r'.finish ≡ true) × (c'.close ≡ c.close))
    ⊎ ((c'.add_events ≡ ev_write_event) × (r'.finish ≡ r.finish) × (c'.close ≡ c.close))
    ⊎ ((c'.close ≡ true) × (c'.dead_events ≡ ev_both_events) × (r'.finish ≡ true))

-- what went out and what is left make up the response, and the request is still the connection's
abbrev pub Sent : Connection → Request → Sending → Type 0
Sent c r s =
    (r' : Request) × (s.conn.request ≡ some r')
    × (s.sent ++ r'.response ≡ r.response)
    × Ended c r s.conn r'
