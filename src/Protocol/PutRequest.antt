-- ===== src/Protocol/PutRequest.antt =====
-- PUT requests in one buffer: the data length, and the data that follow (src/net/protocol.c).
use xpipe.Base.{ℕ, ◌+◌, Ptr, List, ◌∷◌, ◌++◌, Bytes, length, null}
use xpipe.Memory.{Mem}
use xpipe.Xstring.Integer.{numeral_value, print}
use xpipe.Protocol.Accept.{type_text, crlf, if_any}
use xpipe.Protocol.Request.{opening}
use xpipe.Protocol.{Protocol, put_t, sw_start}

-- a PUT request up to its data
abbrev pub put_opening : Bytes → Bytes → List ℕ → Bytes
put_opening bs hs ds = opening bs put_t hs ++ (print ds ++ crlf)

-- the parser's record behind a PUT request whose name, headers, digits and data stand at the
-- first four addresses
abbrev pub put_parsed : Bytes → List ℕ → (p q l e : Ptr) → (v : ℕ) → Ptr → Protocol
put_parsed hs ds p q l e v buf = record {
  type = put_t;
  state = sw_start;
  start = l;
  end = l + length (print ds);
  headers_start = if_any hs q null;
  headers_end = if_any hs (q + length hs) null;
  tmp_data_len = 0;
  data_len = v;
  data_start_buf = buf;
  data_start = e;
  data_end = e + v;
}

module _ (bs hs : Bytes) (d : ℕ) (ds : List ℕ) (buf a : Ptr) (m : Mem) where
  abbrev value : ℕ
  value = numeral_value 0 (d ∷ ds)

  abbrev type_at : Ptr
  type_at = a + length bs

  abbrev headers_at : Ptr
  headers_at = type_at + length (type_text put_t ++ crlf)

  abbrev digits_at : Ptr
  digits_at = a + length (opening bs put_t hs)

  abbrev cr_at : Ptr
  cr_at = digits_at + length (print (d ∷ ds))
