-- ===== src/Protocol/Request.antt =====
-- Whole requests in one buffer: src/net/protocol.c accepts each form of them.
use xpipe.Base.{◌+◌, ◌≡◌, ◌≢◌, refl, arith, Ptr, ◌++◌, Bytes, length, length-append, null}
use xpipe.Memory.{Mem, Holds, Holds-append}
use xpipe.Xstring.{is_blank}
use xpipe.Protocol.Resume.{run_then}
use xpipe.Protocol.Accept.{
  Each, type_text, crlf, typed, headed, if_any, run-blanks, run_type, run_headers,
}
use xpipe.Protocol.{
  RequestType, Scan, next, is_header, run, finish, enter, protocol_parse, protocol_init,
  protocol_done, unknow, put_t, sw_start, sw_headers_lf,
}

-- up to the end of the headers
abbrev pub opening : Bytes → RequestType → Bytes → Bytes
opening bs t hs = bs ++ ((type_text t ++ crlf) ++ (hs ++ crlf))

abbrev pub opened : RequestType → Bytes → Ptr → Ptr → Scan → Scan
opened t hs p q s = headed hs q (typed t p (length (type_text t)) s)

pub run-opening :
    (bs : Bytes) (t : RequestType) (hs : Bytes) (buf p : Ptr) (s : Scan)
    → s.state ≡ sw_start
    → t ≢ unknow
    → Each is_blank bs
    → Each is_header hs
    → Holds s.mem p (opening bs t hs)
    → run (length (opening bs t hs)) buf p s
      ≡ next (opened t hs (p + length bs) (p + length bs + length (type_text t ++ crlf)) s)
run-opening bs t hs buf p s e k b h m =
    let (m₁, rest) = Holds-append s.mem p bs _ m in
    let (m₂, m₃) = Holds-append s.mem (p + length bs) (type_text t ++ crlf) (hs ++ crlf) rest in
    let q = p + length bs in
    let line = run_type t buf q s k e m₂ in
    let head =
      run_headers hs buf (q + length (type_text t ++ crlf)) (typed t q (length (type_text t)) s)
        refl h m₃ in
    let both = run_then (length (type_text t ++ crlf)) (length (hs ++ crlf)) buf q s _ line head in
    rw
      (
        length-append bs ((type_text t ++ crlf) ++ (hs ++ crlf)),
        length-append (type_text t ++ crlf) (hs ++ crlf),
      )
      (run_then (length bs) _ buf p s _ (run-blanks bs buf p s e b m₁) both)

finish_headers :
    (q : Ptr) (s : Scan)
    → s.pro.type ≢ unknow
    → s.pro.type ≢ put_t
    → s.state ≡ sw_headers_lf
    → finish q s ≡ (protocol_done, s.pro, s.mem)
unfolding finish
finish_headers q s k n e = ground arith

-- A GET, LIST or QUEUE request with any headers, or none, and blanks in front is parsed to its end
-- in one call: PROTOCOL_DONE, the type and the place of its name and of its headers are
-- recorded, and the memory stays as it is.
pub protocol_parse_done :
    (bs : Bytes) (t : RequestType) (hs : Bytes) (buf a : Ptr) (m : Mem)
    → t ≢ unknow
    → t ≢ put_t
    → Each is_blank bs
    → Each is_header hs
    → Holds m a (opening bs t hs)
    → let p = a + length bs in
      let q = p + length (type_text t ++ crlf) in
      protocol_parse protocol_init buf m a (length (opening bs t hs)) ≡ (
        protocol_done,
        record protocol_init {
          type = t;
          start = p;
          end = p + length (type_text t);
          headers_start = if_any hs q null;
          headers_end = if_any hs (q + length hs) null;
        },
        m,
      )
unfolding protocol_parse
protocol_parse_done bs t hs buf a m k np b h mem =
    rw (run-opening bs t hs buf a (enter protocol_init m) refl k b h mem)
      (finish_headers _ (opened t hs (a + length bs) _ (enter protocol_init m)) k np refl)
