-- ===== src/Protocol.antt =====
-- src/net/protocol.c and src/net/protocol.h: the request parser, a state machine over the bytes
-- that a read has put into the last buffer.
pub mod Resume
pub mod Accept
pub mod Request
pub mod DataLength
pub mod PutRequest
use xpipe.Base.{
  ℕ, zero, suc, ◌+◌, ◌-◌, ◌^◌, Bool, true, false, not, ◌&&◌, ◌||◌, List, [], ◌∷◌, Bytes, Ptr, null,
  ltb, leb, ◌==◌, if◌then◌else◌, size_of_int, sub64,
}
use xpipe.Memory.{Mem, poke, c_string_at, starts_at}
use xpipe.Xstring.{lf, cr, is_letter, is_digit, is_blank, atoi}

pub data RequestType : Type 0 where
  unknow put_t get_t queue_t list_t : RequestType

pub data State : Type 0 where
  sw_start sw_type sw_type_cr sw_type_lf sw_headers sw_headers_cr sw_headers_lf : State
  sw_data_len sw_data_len_cr sw_data_len_lf sw_data : State

-- PROTOCOL_OK, PROTOCOL_ERROR, PROTOCOL_DONE and the error codes 1 to 6
pub data Ret : Type 0 where
  protocol_ok protocol_error protocol_done : Ret
  err_type_invalid err_only_cr err_type_not_found err_headers_invalid : Ret
  err_data_len_invalid err_needless_data : Ret

-- `protocol_t`
pub record Protocol : Type 0 where
  pub type : RequestType
  pub state : State
  pub start : Ptr
  pub end : Ptr
  pub headers_start : Ptr
  pub headers_end : Ptr
  pub tmp_data_len : ℕ
  pub data_len : ℕ
  pub data_start_buf : Ptr
  pub data_start : Ptr
  pub data_end : Ptr

-- the cleared record of `protocol_init`
abbrev pub protocol_init : Protocol
protocol_init = record {
  type = unknow;
  state = sw_start;
  start = null;
  end = null;
  headers_start = null;
  headers_end = null;
  tmp_data_len = 0;
  data_len = 0;
  data_start_buf = null;
  data_start = null;
  data_end = null;
}

-- `*pro`, the locals `state` and `data_len`, and the memory
pub record Scan : Type 0 where
  pub pro : Protocol
  pub state : State
  pub data_len : ℕ
  pub mem : Mem

-- an iteration of the loop goes on or returns
pub data Step : Type 0 where
  next : Scan → Step
  stop : Ret → Scan → Step

abbrev pub text_put : Bytes
text_put = b'P' ∷ b'U' ∷ b'T' ∷ []

abbrev pub text_get : Bytes
text_get = b'G' ∷ b'E' ∷ b'T' ∷ []

abbrev pub text_list : Bytes
text_list = b'L' ∷ b'I' ∷ b'S' ∷ b'T' ∷ []

abbrev pub text_queue : Bytes
text_queue = b'Q' ∷ b'U' ∷ b'E' ∷ b'U' ∷ b'E' ∷ []

abbrev go : State → Scan → Step
go st s = next (record s { state = st })

abbrev found : RequestType → Scan → Step
found t s = next (record s { pro = record (s.pro) { type = t }; state = sw_type_lf })

-- the inner `switch`, on `pro->end - pro->start`
unfoldable pub find_type : Scan → Step
find_type s =
    let at = starts_at s.mem s.pro.start in
    if s.pro.end == s.pro.start + 3
    then (if at text_put
        then found put_t s
        else if at text_get
        then found get_t s
        else stop err_type_not_found s)
    else if s.pro.end == s.pro.start + 4
    then (if at text_list then found list_t s else stop err_type_not_found s)
    else if s.pro.end == s.pro.start + 5
    then (if at text_queue then found queue_t s else stop err_type_not_found s)
    else stop err_type_not_found s

-- `c < 'A' || c > 'Z'`
unfoldable pub not_upper : ℕ → Bool
not_upper c = ltb c b'A' || ltb b'Z' c

unfoldable pub is_header : ℕ → Bool
unfolding is_letter is_digit
is_header c = is_letter c || is_digit c || c == b';' || c == b'_' || c == b'='

abbrev pub is_put : RequestType → Bool
is_put put_t = true
is_put _ = false

-- `case sw_data_len_cr` behind its test
read_data_len : Ptr → Scan → Step
read_data_len p s =
    let m = poke (p - 1) 0 s.mem in
    let n = size_of_int (atoi (c_string_at m s.pro.start)) in
    let s' = record s {
      pro = record (s.pro) { data_len = n };
      data_len = n;
      mem = poke (p - 1) 0 m;
    } in
    if n == 0 then stop err_data_len_invalid s' else go sw_data_len_lf s'

-- The `switch`, at the byte `c` at `p`; `buf` is `r->last_buffer`.
unfoldable pub step_in : State → Ptr → Ptr → ℕ → Scan → Step
unfolding find_type not_upper is_header read_data_len
step_in sw_start buf p c s =
    if is_blank c
    then next s
    else if not_upper c
    then stop err_type_invalid s
    else next (record s { pro = record (s.pro) { start = p }; state = sw_type })
step_in sw_type buf p c s =
    if c == cr
    then next (record s { pro = record (s.pro) { end = p }; state = sw_type_cr })
    else if not_upper c
    then stop err_type_invalid s
    else next s
step_in sw_type_cr buf p c s = if not (c == lf) then stop err_only_cr s else find_type s
step_in sw_type_lf buf p c s =
    if c == cr
    then go sw_headers_cr s
    else if not (is_header c)
    then stop err_headers_invalid s
    else next (record s { pro = record (s.pro) { headers_start = p }; state = sw_headers })
step_in sw_headers buf p c s =
    if c == cr
    then next (record s { pro = record (s.pro) { headers_end = p }; state = sw_headers_cr })
    else if not (is_header c)
    then stop err_headers_invalid s
    else next s
step_in sw_headers_cr buf p c s =
    if not (c == lf) then stop protocol_error s else go sw_headers_lf s
step_in sw_headers_lf buf p c s =
    if not (is_put s.pro.type)
    then stop err_needless_data s
    else if not (is_digit c)
    then stop err_data_len_invalid s
    else next (record s { pro = record (s.pro) { start = p }; state = sw_data_len })
step_in sw_data_len buf p c s =
    if c == cr
    then next (record s { pro = record (s.pro) { end = p }; state = sw_data_len_cr })
    else if not (is_digit c)
    then stop err_data_len_invalid s
    else next s
step_in sw_data_len_cr buf p c s = if not (c == lf) then stop err_only_cr s else read_data_len p s
step_in sw_data_len_lf buf p c s = next (record s {
  pro = record (s.pro) { data_start_buf = buf; data_start = p };
  data_len = sub64 s.data_len 1;
  state = sw_data;
})
step_in sw_data buf p c s =
    let s' = record s { data_len = sub64 s.data_len 1 } in
    if s.data_len == 0 then stop err_needless_data s' else next s'

abbrev pub step : Ptr → Ptr → Scan → Step
step buf p s = step_in s.state buf p (s.mem p) s

-- the `for` over the `n` bytes from `p` on
unfoldable pub run : ℕ → Ptr → Ptr → Scan → Step
run zero buf p s = next s
run (suc n) buf p s = elim (step buf p s) [ next s' ↦ run n buf (p + 1) s' | stop r s' ↦ stop r s' ]

abbrev is_unknow : RequestType → Bool
is_unknow unknow = true
is_unknow _ = false

abbrev is_headers_lf : State → Bool
is_headers_lf sw_headers_lf = true
is_headers_lf _ = false

abbrev is_data : State → Bool
is_data sw_data = true
is_data _ = false

-- behind the loop; `p` is the end of the bytes
unfoldable pub finish : Ptr → Scan → Ret × Protocol × Mem
finish p s =
    if not (is_unknow s.pro.type) && not (is_put s.pro.type) && is_headers_lf s.state
    then (protocol_done, s.pro, s.mem)
    else if is_put s.pro.type && is_data s.state && s.data_len == 0
    then (protocol_done, record (s.pro) { data_end = p }, s.mem)
    else (protocol_ok, record (s.pro) { state = s.state; tmp_data_len = s.data_len }, s.mem)

unfoldable pub conclude : Ptr → Step → Ret × Protocol × Mem
unfolding finish
conclude p (next s) = finish p s
conclude p (stop r s) = (r, s.pro, s.mem)

abbrev pub enter : Protocol → Mem → Scan
enter pro m = record { pro = pro; state = pro.state; data_len = pro.tmp_data_len; mem = m }

-- `protocol_parse(r, start, start + n)`
unfoldable pub protocol_parse : Protocol → Ptr → Mem → Ptr → ℕ → Ret × Protocol × Mem
unfolding run conclude
protocol_parse pro buf m start n = conclude (start + n) (run n buf start (enter pro m))
