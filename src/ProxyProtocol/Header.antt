-- ===== src/ProxyProtocol/Header.antt =====
-- pkg/proxyprotocol/parse.go, `parseHeader`.
use parapet.Prelude.{ℕ, List, Option, if◌then◌else◌}
use parapet.GoStrings.{Text, codes, has_prefix}
use parapet.ProxyProtocol.Reader.{Stream, Error, Result, ok, err}
use parapet.ProxyProtocol.V1.{TcpAddr, parse_v1}
use parapet.ProxyProtocol.V2.{signature, parse_v2}

-- `found` has the source address, if there is a usable one, and what is left of the stream; after
-- `missing` nothing of it is consumed.
pub data Parsed : Type 0 where
  found : Option TcpAddr → Stream → Parsed
  missing : Parsed
  broken : Error → Parsed

abbrev pub parsed_of : Result (Option TcpAddr) → Parsed
parsed_of (ok source s) = found source s
parsed_of (err e) = broken e

-- `Peek` waits for twelve bytes or the end of the stream.
unfoldable pub parse_header : (Text → Option (List ℕ)) → Stream → Parsed
unfolding parse_v1 parse_v2
parse_header parse_ip s =
    if has_prefix s.bytes signature
    then parsed_of (parse_v2 s)
    else if has_prefix s.bytes (codes "PROXY ")
    then parsed_of (parse_v1 parse_ip s)
    else missing
