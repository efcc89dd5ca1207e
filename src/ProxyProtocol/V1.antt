-- ===== src/ProxyProtocol/V1.antt =====
-- pkg/proxyprotocol/parse.go, `parseV1`: the line of version 1.
use parapet.Prelude.{
  ℕ, List, [], ◌∷◌, Option, none, some, not, ◌&&◌, ◌||◌, ltb, ◌==◌, if◌then◌else◌, length,
}
use parapet.GoInt64.{less}
use parapet.GoStrings.{Text, codes, text_eq}
use parapet.GoStrings.Split.{split}
use parapet.GoStrings.ParseInt.{parse_int}
use parapet.ProxyProtocol.Reader.{
  Stream, Result, ok, err, malformed, io, end_error, read_slice, line, buffer_full, ended,
  buffer_size,
}

-- `net.TCPAddr`.
pub record TcpAddr : Type 0 where
  pub ip : List ℕ
  pub port : ℕ

abbrev pub max_v1_line : ℕ
max_v1_line = 108

-- The line without its "\r\n", `none` if it does not end so.
unfoldable pub before_crlf : Text → Option Text
before_crlf [] = none
before_crlf (c ∷ []) = none
before_crlf (c ∷ d ∷ []) = if c == b'\r' && d == b'\n' then some [] else none
before_crlf (c ∷ d ∷ e ∷ cs) = elim (before_crlf (d ∷ e ∷ cs)) [
  | none ↦ none
  | some l ↦ some (c ∷ l)
]

-- The port of `strconv.Atoi`, in its range.
unfoldable pub port_of : Text → Option ℕ
port_of t = elim (parse_int t) [
  | none ↦ none
  | some port ↦ if less port 0 || less 65535 port then none else some port
]

-- A v1 header that parses: an address, or none for UNKNOWN. `parse_ip` is net.ParseIP.
module _ (parse_ip : Text → Option (List ℕ)) where
  unfoldable pub tcp_fields : List Text → Option TcpAddr
  unfolding port_of
  tcp_fields (proxy ∷ proto ∷ src ∷ dst ∷ sport ∷ dport ∷ []) = elim (parse_ip src) [
    | none ↦ none
    | some ip ↦ elim (port_of sport) [
      | none ↦ none
      | some port ↦ some (record { ip = ip; port = port })
    ]
  ]
  tcp_fields _ = none

  unfoldable pub v1_fields : List Text → Option (Option TcpAddr)
  unfolding tcp_fields
  v1_fields (proxy ∷ proto ∷ more) =
      if not (text_eq proxy (codes "PROXY"))
      then none
      else if text_eq proto (codes "TCP4") || text_eq proto (codes "TCP6")
      then (elim (tcp_fields (proxy ∷ proto ∷ more)) [ none ↦ none | some a ↦ some (some a) ])
      else if text_eq proto (codes "UNKNOWN")
      then some none
      else none
  v1_fields _ = none

  unfoldable pub v1_line : Text → Option (Option TcpAddr)
  unfolding v1_fields before_crlf
  v1_line l =
      if ltb max_v1_line (length l)
      then none
      else elim (before_crlf l) [ none ↦ none | some body ↦ v1_fields (split b' ' body) ]

  unfoldable pub parse_v1 : Stream → Result (Option TcpAddr)
  unfolding read_slice v1_line
  parse_v1 s = elim (read_slice buffer_size s.bytes) [
    | buffer_full ↦ err malformed
    | ended ↦ err (io (end_error s.end))
    | line l rest ↦ elim (v1_line l) [
      | none ↦ err malformed
      | some source ↦ ok source (record s { bytes = rest })
    ]
  ]
