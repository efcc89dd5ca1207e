-- ===== src/Tests/ProxyProtocol.antt =====
-- pkg/proxyprotocol at small inputs.
use parapet.Prelude.{ℕ, ◌+◌, ◌≡◌, refl, List, [], ◌∷◌, ◌++◌, Option, none, some, false, arith}
use parapet.GoStrings.{Text, codes, has_prefix, text_eq}
use parapet.GoStrings.Split.{split}
use parapet.GoStrings.ParseInt.{parse_int}
use parapet.GoInt64.{less}
use parapet.ProxyProtocol.Reader.{Stream, closed, ok, err, malformed}
use parapet.ProxyProtocol.V1.{v1_line}
use parapet.ProxyProtocol.V2.{uint16_at, parse_v2}
use parapet.ProxyProtocol.Header.{parse_header, missing}
use parapet.ProxyProtocol.RoundTrip.{inet, encode, parse_v2-encode}
use parapet.ProxyProtocol.Consumed.{Consumes, parse_v2-Consumes}
use parapet.ProxyProtocol.Connection.{Conn, read, ask_addr, use_all}
use parapet.ProxyProtocol.Session.{Agree, settled, use_all-settled}

-- An IP parser that knows one address.
abbrev one_ip : Text → Option (List ℕ)
one_ip t = some (1 ∷ 2 ∷ 3 ∷ 4 ∷ [])

abbrev stream : Text → Stream
stream b = record { bytes = b; end = closed }

-- A source 1.2.3.4:258 in front of two bytes of the client, with one byte of TLVs.
abbrev header : Text
header = encode inet (1 ∷ 2 ∷ 3 ∷ 4 ∷ []) (5 ∷ 6 ∷ 7 ∷ 8 ∷ []) 258 80 (9 ∷ []) (codes "hi")

parse_v2-encode_example :
    parse_v2 (stream header)
    ≡ ok (some (record { ip = 1 ∷ 2 ∷ 3 ∷ 4 ∷ []; port = 258 })) (stream (codes "hi"))
parse_v2-encode_example =
    parse_v2-encode inet (1 ∷ 2 ∷ 3 ∷ 4 ∷ []) (5 ∷ 6 ∷ 7 ∷ 8 ∷ []) 258 80 (9 ∷ []) (codes "hi")
      closed refl refl (omega arith)

parse_v2-Consumes_example :
    Consumes (16 + uint16_at header 14) (stream header) (stream (codes "hi"))
parse_v2-Consumes_example =
    parse_v2-Consumes (stream header) (stream (codes "hi"))
      (some (record { ip = 1 ∷ 2 ∷ 3 ∷ 4 ∷ []; port = 258 })) parse_v2-encode_example

-- A payload that is too short for its family.
short_payload :
    parse_v2 (
      stream (
        0x0D ∷ 0x0A ∷ 0x0D ∷ 0x0A ∷ 0x00 ∷ 0x0D ∷ 0x0A ∷ 0x51 ∷ 0x55 ∷ 0x49 ∷ 0x54 ∷ 0x0A ∷ 0x21
        ∷ 0x11 ∷ 0 ∷ 11 ∷ []))
    ≡ err malformed
unfolding parse_v2
short_payload = refl

-- "\r\n" ends a line of version 1.
tcp4_line :
    v1_line one_ip (codes "PROXY TCP4 1.2.3.4 5.6.7.8 258 80" ++ 13 ∷ 10 ∷ [])
    ≡ some (some (record { ip = 1 ∷ 2 ∷ 3 ∷ 4 ∷ []; port = 258 }))
unfolding v1_line split parse_int less text_eq
tcp4_line = refl

port_out_of_range :
    v1_line one_ip (codes "PROXY TCP4 1.2.3.4 5.6.7.8 65536 80" ++ 13 ∷ 10 ∷ []) ≡ none
unfolding v1_line split parse_int less text_eq
port_out_of_range = refl

abbrev request : Text
request = codes "GET / HTTP/1.1"

no_header_here : parse_header one_ip (stream request) ≡ missing
unfolding parse_header has_prefix
no_header_here = refl

abbrev client : Conn
client = record {
  peer = record { ip = 10 ∷ 0 ∷ 0 ∷ 1 ∷ []; port = 4000 };
  stream = stream request;
  require = false;
  parsed = false;
  remote_addr = none;
  parse_err = none;
}

use_all-settled_example :
    Agree
      (settled (parse_header one_ip (stream request)) client)
      (settled (parse_header one_ip (stream request)) client).content
      (read 3 ∷ ask_addr ∷ read 8 ∷ [])
      (use_all one_ip client (read 3 ∷ ask_addr ∷ read 8 ∷ []))
use_all-settled_example =
    use_all-settled one_ip client (read 3 ∷ ask_addr ∷ read 8 ∷ []) refl refl refl
