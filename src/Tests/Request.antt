-- ===== src/Tests/Request.antt =====
-- Requests of src/net/protocol.c, and numerals of src/xstring.c, at concrete texts.
use xpipe.Base.{◌-◌, [], ◌∷◌, ◌≡◌, refl, Bytes, ◌==◌, if◌then◌else◌}
use xpipe.Memory.{Mem, Holds-starts_at, starts_at}
use xpipe.Xstring.{is_letter, is_blank, is_digit}
use xpipe.Protocol.{
  Protocol, protocol_parse, protocol_init, protocol_done, is_header, step_in, list_t, Ret,
}
use xpipe.Protocol.Request.{protocol_parse_done}
use xpipe.Protocol.Resume.{Agrees, protocol_parse-append}
use xpipe.Tests.Inputs.{codes}

-- memory that holds the text from address 200 on
abbrev text_at : Bytes → Mem
text_at [] a = 0
text_at (c ∷ cs) a = if a == 200 then c else text_at cs (a - 1)

abbrev put_text : Bytes
put_text = codes "PUT\r\n\r\n3\r\nabc"

abbrev list_text : Bytes
list_text = codes " LIST\r\nq=1\r\n"

protocol_parse_done_example : protocol_parse protocol_init 100 (text_at list_text) 200 12 ≡ (
  protocol_done,
  record protocol_init {
    type = list_t;
    start = 201;
    end = 205;
    headers_start = 207;
    headers_end = 210;
  },
  text_at list_text,
)
unfolding is_blank is_header is_letter is_digit starts_at
protocol_parse_done_example =
    protocol_parse_done (b' ' ∷ []) list_t (codes "q=1") 100 200 (text_at list_text) (λ e. cc)
      (λ e. cc) (refl, tt) (refl, (refl, (refl, tt)))
      (Holds-starts_at (text_at list_text) 200 list_text refl)

-- the PUT request in two reads, the first of them five bytes
abbrev first_read : Ret × Protocol × Mem
first_read = protocol_parse protocol_init 100 (text_at put_text) 200 5

protocol_parse-append_example :
    Agrees
      (protocol_parse protocol_init 100 (text_at put_text) 200 13)
      (protocol_parse first_read.1 100 first_read.2 205 8)
unfolding protocol_parse step_in is_blank starts_at
protocol_parse-append_example =
    protocol_parse-append protocol_init 100 (text_at put_text) 200 5 8 first_read.1 first_read.2
      refl
