-- ===== src/TcpServer/ConnectionPool.antt =====
-- The pool of connections (src/net/tcp_server.c): slots linked through their `next`. A slot that is
-- handed out uses the same field for the list of active connections (src/net/net_epoll.c).
use xpipe.Base.{ℕ, zero, suc, Bool, Option, none, some, ◌==◌, if◌then◌else◌}

-- The head of the pool's list, and of each slot its `next` and its `conn_fd`; `none` stands for
-- NULL and -1.
pub record ConnectionPool : Type 0 where
  pub connection_pool : Option ℕ
  pub next : ℕ → Option ℕ
  pub conn_fd : ℕ → Option ℕ

abbrev pub put : ℕ → Option ℕ → (ℕ → Option ℕ) → ℕ → Option ℕ
put i v f j = if j == i then v else f j

-- the `for` of `connection_pool_init`: `i` slots are left, and the one behind them is `next`
unfoldable pub link : ℕ → Option ℕ → (ℕ → Option ℕ) → Option ℕ × (ℕ → Option ℕ)
link zero next f = (next, f)
link (suc i) next f = link i (some i) (put i next f)

-- `connection_pool_init`, of `n` slots with what their memory held; the head is the first slot
unfoldable pub connection_pool_init : ℕ → (ℕ → Option ℕ) → (ℕ → Option ℕ) → ConnectionPool
unfolding link
connection_pool_init n next fd = record {
  connection_pool = some 0;
  next = (link n none next).1;
  conn_fd = fd;
}

unfoldable pub hand_out : Option ℕ → ℕ → ConnectionPool → Option ℕ × ConnectionPool
hand_out none fd s = (none, s)
hand_out (some i) fd s = (
  some i,
  record {
    connection_pool = s.next i;
    next = put i none s.next;
    conn_fd = put i (some fd) s.conn_fd;
  },
)

-- `tcp_get_connection`; `got` tells whether the connection's own memory pool came
unfoldable pub tcp_get_connection : Bool → ℕ → ConnectionPool → Option ℕ × ConnectionPool
unfolding hand_out
tcp_get_connection got fd s = if got then hand_out s.connection_pool fd s else (none, s)

-- `tcp_free_connection`
unfoldable pub tcp_free_connection : ℕ → ConnectionPool → ConnectionPool
tcp_free_connection i s = record {
  connection_pool = some i;
  next = put i s.connection_pool s.next;
  conn_fd = put i none s.conn_fd;
}

-- `conn->next = …` of a connection that was polled (`epoll_polling`)
unfoldable pub relink : ℕ → Option ℕ → ConnectionPool → ConnectionPool
relink i v s = record s { next = put i v s.next }
