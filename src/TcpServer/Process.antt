-- ===== src/TcpServer/Process.antt =====
-- A request from its first byte to its response: `tcp_request_init`, `tcp_request_process` and
-- `tcp_server_recv` (src/net/tcp_server.c).
use xpipe.Base.{
  ℕ, ◌-◌, ◌+◌, true, false, not, List, [], ◌∷◌, Option, none, some, Bytes, Ptr, null, ltb, ◌==◌,
  if◌then◌else◌, length,
}
use xpipe.Memory.{Mem, poke}
use xpipe.Allocator.{Allocator}
use xpipe.Protocol.{Protocol, protocol_init, protocol_parse, Ret, protocol_ok, protocol_done}
use xpipe.Connection.{ev_both_events, Buffer, Request, Connection}
use xpipe.TcpServer.{Wrote, Sending, tcp_request_finish}

abbrev pub buffer_min_size : ℕ
buffer_min_size = 1024

abbrev pub buffer_max_size : ℕ
buffer_max_size = 12328960

-- sizes of `buffer_t`, `tcp_request_t` and `protocol_t`
abbrev pub buffer_size : ℕ
buffer_size = 32

abbrev pub request_size : ℕ
request_size = 88

abbrev pub protocol_size : ℕ
protocol_size = 80

-- the size that `tcp_request_init` makes of the configured one
unfoldable pub clamp_size : ℕ → ℕ
clamp_size n =
    if ltb n buffer_min_size
    then buffer_min_size
    else if ltb buffer_max_size n
    then buffer_max_size
    else n

-- what a call of `read` gives: bytes, none of them at the end of the stream; EAGAIN; another error
pub data Got : Type 0 where
  received : Bytes → Got
  would_block failed : Got

-- the bytes in memory from `p` on
pub fill : Ptr → Bytes → Mem → Mem
fill p [] m = m
fill p (c ∷ cs) m = fill (p + 1) cs (poke p c m)

module _ (al : Allocator) where
  open al use {Pool, alloc}

  -- an empty buffer of `n` bytes
  unfoldable pub new_buffer : ℕ → Pool → Option Buffer × Pool
  new_buffer n p =
      let (a, p') = alloc (n + buffer_size) p in
      let from = a + buffer_size in
      if a == null
      then (none, p')
      else (some (record { buffer = from; last = from; end = from + n }), p')

  abbrev pub new_request : Buffer → Request
  new_request b = record {
    protocol = protocol_init;
    last_buffer = b;
    response = [];
    done = false;
    finish = false;
    error = false;
  }

  -- the part of `tcp_request_init` behind the creation of its pool
  unfoldable pub init_from : ℕ → Pool → Option (Request × Pool)
  unfolding new_buffer
  init_from n p =
      let (r, p₁) = alloc request_size p in
      let (b, p₂) = new_buffer n p₁ in
      let (b₁, p₃) = new_buffer n p₂ in
      let (pro, p₄) = alloc protocol_size p₃ in
      if r == null then none else elim b [
        | none ↦ none
        | some first ↦ elim b₁ [
          | none ↦ none
          | some second ↦ if pro == null then none else some (new_request first, p₄)
        ]
      ]

  -- `tcp_request_init`, with the pool that `mem_pool_create` gave
  unfoldable pub tcp_request_init : ℕ → Option Pool → Option (Request × Pool)
  unfolding init_from
  tcp_request_init n none = none
  tcp_request_init n (some p) = init_from (clamp_size n) p

  -- a call that sends nothing
  abbrev pub silent : List Wrote → Connection → Request → Pool → Option (Sending × Pool)
  silent ws c r p =
      some (record { conn = record c { request = some r }; sent = []; answers = ws }, p)

  abbrev pub finished : List Wrote → Connection → Request → Pool → Option (Sending × Pool)
  finished ws c r p = elim (tcp_request_finish ws c r) [ none ↦ none | some s ↦ some (s, p) ]

  -- the room for more bytes, where the buffer is full
  unfoldable pub extend :
      List Wrote → Connection → Request → Option Buffer × Pool → Option (Sending × Pool)
  extend ws c r (none, p) = finished ws c (record r { error = true }) p
  extend ws c r (some b, p) = silent ws c (record r { last_buffer = b }) p

  -- `tcp_request_process`, on the request `r` of `c`
  unfoldable pub tcp_request_process :
      Ret → List Wrote → Connection → Request → Pool → Option (Sending × Pool)
  unfolding extend new_buffer
  tcp_request_process protocol_ok ws c r p =
      if not (r.last_buffer.last == r.last_buffer.end)
      then silent ws c r p
      else extend ws c r (new_buffer buffer_min_size p)
  tcp_request_process protocol_done ws c r p = finished ws c (record r { done = true }) p
  tcp_request_process _ ws c r p = finished ws c (record r { error = true }) p

  -- behind the parser: `b->last += n`, and the processing
  unfoldable pub parsed :
      List Wrote
      → Connection
      → Request
      → ℕ
      → Pool
      → Ret × Protocol × Mem
      → Option (Sending × Pool × Mem)
  unfolding tcp_request_process
  parsed ws c r n p (ret, pro, m) =
      let b = r.last_buffer in
      let r' = record r { protocol = pro; last_buffer = record b { last = b.last + n } } in
      elim (tcp_request_process ret ws c r' p) [ none ↦ none | some (s, p') ↦ some (s, p', m) ]

  abbrev closing : Connection → Connection
  closing c = record c { dead_events = ev_both_events; close = true }

  -- The `buffer_t` stands right in front of its bytes.
  -- `tcp_server_recv` with a request, and what `read` gives; whether it returns TCP_SRV_OK is not
  -- used by its caller
  unfoldable pub recv_on :
      Got → List Wrote → Connection → Request → Pool → Mem → Option (Sending × Pool × Mem)
  unfolding parsed fill
  recv_on (received []) ws c r p m =
      some (record { conn = closing c; sent = []; answers = ws }, p, m)
  recv_on (received (x ∷ xs)) ws c r p m =
      let b = r.last_buffer in
      let m' = fill b.last (x ∷ xs) m in
      let n = length (x ∷ xs) in
      parsed ws c r n p (protocol_parse r.protocol (b.buffer - buffer_size) m' b.last n)
  recv_on would_block ws c r p m = some (record { conn = c; sent = []; answers = ws }, p, m)
  recv_on failed ws c r p m = some (record { conn = closing c; sent = []; answers = ws }, p, m)

  abbrev started_with :
      Got
      → List Wrote
      → Connection
      → Pool
      → Mem
      → Option (Request × Pool)
      → Option (Sending × Pool × Mem)
  started_with g ws c p m none = some (record { conn = c; sent = []; answers = ws }, p, m)
  started_with g ws c p m (some (r, p')) = recv_on g ws (record c { request = some r }) r p' m

  -- `tcp_server_recv`; `p` is the pool of the request if there is one, `created` the pool that
  -- `mem_pool_create` gives if there is none
  unfoldable pub tcp_server_recv :
      ℕ → Option Pool → Got → List Wrote → Connection → Pool → Mem → Option (Sending × Pool × Mem)
  unfolding recv_on tcp_request_init
  tcp_server_recv size created g ws c p m = elim c.request [
    | none ↦ started_with g ws c p m (tcp_request_init size created)
    | some r ↦ recv_on g ws c r p m
  ]
