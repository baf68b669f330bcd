-- ===== src/Protocol/Accept.antt =====
-- The well-formed requests of src/net/protocol.c, piece by piece: each lemma runs the machine over
-- the bytes of one piece.
use xpipe.Base.{
  ℕ, ◌+◌, ◌≡◌, ◌≢◌, refl, Bool, true, false, arith, ◌==◌, Ptr, [], ◌∷◌, ◌++◌, Bytes, length,
}
use xpipe.Memory.{Holds, starts_at}
use xpipe.Xstring.{cr, lf, is_blank, is_digit}
use xpipe.Protocol.{
  RequestType, Scan, next, step_in, find_type, not_upper, is_header, run, text_put, text_get,
  text_list, text_queue, unknow, put_t, get_t, list_t, queue_t, sw_start, sw_type_lf, sw_headers,
  sw_headers_lf, sw_data_len,
}

abbrev pub Each : (ℕ → Bool) → Bytes → Type 0
Each f [] = Unit
Each f (c ∷ cs) = (f c ≡ true) × Each f cs

pub run-blanks :
    (bs : Bytes) (buf p : Ptr) (s : Scan)
    → s.state ≡ sw_start
    → Each is_blank bs
    → Holds s.mem p bs
    → run (length bs) buf p s ≡ next s
unfolding run step_in
run-blanks [] buf p s e b h = refl
run-blanks (c ∷ cs) buf p s e b h = ground (arith, run-blanks cs buf (p + 1) s e b.1 h.1)

abbrev pub typed : RequestType → Ptr → ℕ → Scan → Scan
typed t p n s = record s {
  pro = record (s.pro) { type = t; start = p; end = p + n };
  state = sw_type_lf;
}

abbrev pub type_text : RequestType → Bytes
type_text unknow = []
type_text put_t = text_put
type_text get_t = text_get
type_text list_t = text_list
type_text queue_t = text_queue

abbrev pub crlf : Bytes
crlf = cr ∷ lf ∷ []

-- the request line
pub run_type :
    (t : RequestType) (buf p : Ptr) (s : Scan)
    → t ≢ unknow
    → s.state ≡ sw_start
    → Holds s.mem p (type_text t ++ crlf)
    → run (length (type_text t ++ crlf)) buf p s ≡ next (typed t p (length (type_text t)) s)
unfolding run step_in find_type starts_at not_upper is_blank
run_type unknow buf p s t e h = absurd (t refl)
run_type put_t buf p s t e h = ground arith
run_type get_t buf p s t e h = ground arith
run_type list_t buf p s t e h = ground arith
run_type queue_t buf p s t e h = ground arith

-- a pointer that is set only if there are headers
abbrev pub if_any : Bytes → Ptr → Ptr → Ptr
if_any [] new old = old
if_any (h ∷ hs) new old = new

-- the record once the headers `hs` at `p` are read
abbrev pub headed : Bytes → Ptr → Scan → Scan
headed hs p s = record s {
  pro = record (s.pro) {
    headers_start = if_any hs p s.pro.headers_start;
    headers_end = if_any hs (p + length hs) s.pro.headers_end;
  };
  state = sw_headers_lf;
}

not_cr : (c : ℕ) → is_header c ≡ true → (c == cr) ≡ false
unfolding is_header
not_cr c h = ground arith

run-is_header :
    (hs : Bytes) (buf p : Ptr) (s : Scan)
    → s.state ≡ sw_headers
    → Each is_header hs
    → Holds s.mem p (hs ++ crlf)
    → run (length (hs ++ crlf)) buf p s
      ≡ next
          (record s { pro = record (s.pro) { headers_end = p + length hs }; state = sw_headers_lf })
unfolding run step_in
run-is_header [] buf p s e b h = ground arith
run-is_header (c ∷ hs) buf p s e b h =
    ground (arith, run-is_header hs buf (p + 1) s e b.1 h.1, not_cr c b.0)

-- the header line
pub run_headers :
    (hs : Bytes) (buf p : Ptr) (s : Scan)
    → s.state ≡ sw_type_lf
    → Each is_header hs
    → Holds s.mem p (hs ++ crlf)
    → run (length (hs ++ crlf)) buf p s ≡ next (headed hs p s)
unfolding run step_in
run_headers [] buf p s e b h = ground arith
run_headers (c ∷ hs) buf p s e b h =
    let inside = record s { pro = record (s.pro) { headers_start = p }; state = sw_headers } in
    ground (arith, run-is_header hs buf (p + 1) inside refl b.1 h.1, not_cr c b.0)

run-is_digit :
    (ds : Bytes) (buf p : Ptr) (s : Scan)
    → s.state ≡ sw_data_len
    → Each is_digit ds
    → Holds s.mem p ds
    → run (length ds) buf p s ≡ next s
unfolding run step_in is_digit
run-is_digit [] buf p s e b h = refl
run-is_digit (c ∷ ds) buf p s e b h = ground (arith, run-is_digit ds buf (p + 1) s e b.1 h.1)

-- the digits of the data length
pub run_digits :
    (c : ℕ) (ds : Bytes) (buf p : Ptr) (s : Scan)
    → s.state ≡ sw_headers_lf
    → s.pro.type ≡ put_t
    → Each is_digit (c ∷ ds)
    → Holds s.mem p (c ∷ ds)
    → run (length (c ∷ ds)) buf p s
      ≡ next (record s { pro = record (s.pro) { start = p }; state = sw_data_len })
unfolding run step_in
run_digits c ds buf p s e t b h =
    let inside = record s { pro = record (s.pro) { start = p }; state = sw_data_len } in
    ground (arith, run-is_digit ds buf (p + 1) inside refl b.1 h.1)
