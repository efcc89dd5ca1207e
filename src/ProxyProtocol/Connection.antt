-- ===== src/ProxyProtocol/Connection.antt =====
-- pkg/proxyprotocol/proxyprotocol.go: which connections are wrapped, and what a wrapped one answers. The
-- read deadline is left out: a read that misses it ends the stream as failed.
use parapet.Prelude.{
  ℕ, List, [], ◌∷◌, Option, none, some, Bool, true, false, ◌||◌, ◌==◌, if◌then◌else◌, length,
}
use parapet.GoStrings.{Text}
use parapet.ProxyProtocol.Reader.{Stream, Error, Split, split_at, short, first_bytes}
use parapet.ProxyProtocol.V1.{TcpAddr}
use parapet.ProxyProtocol.Header.{Parsed, found, missing, broken, parse_header}

pub data ConnError : Type 0 where
  no_header : ConnError
  header : Error → ConnError

-- `conn`. `peer` is the address of the wrapped connection, and `parsed` is the state of `once`.
pub record Conn : Type 0 where
  pub peer : TcpAddr
  pub stream : Stream
  pub require : Bool
  pub parsed : Bool
  pub remote_addr : Option TcpAddr
  pub parse_err : Option ConnError

-- A connection as the server has it.
pub data Wrapped : Type 0 where
  plain : TcpAddr → Stream → Wrapped
  proxied : Conn → Wrapped

-- An IP is in one of the networks, each of which is its `Contains`.
unfoldable pub any_contains : List (List ℕ → Bool) → List ℕ → Bool
any_contains [] ip = false
any_contains (n ∷ ns) ip = n ip || any_contains ns ip

-- `trusts`, of a TCP peer.
unfoldable pub trusts : List (List ℕ → Bool) → TcpAddr → Bool
unfolding any_contains
trusts trusted addr = length trusted == 0 || any_contains trusted addr.ip

unfoldable pub modify_connection : List (List ℕ → Bool) → Bool → TcpAddr → Stream → Wrapped
unfolding trusts
modify_connection trusted require peer s =
    if trusts trusted peer
    then proxied (record {
      peer = peer;
      stream = s;
      require = require;
      parsed = false;
      remote_addr = none;
      parse_err = none;
    })
    else plain peer s

-- `parse`, from the answer of `parseHeader`.
unfoldable pub parse_of : Parsed → Conn → Conn
parse_of (found source s) c = record c { parsed = true; stream = s; remote_addr = source }
parse_of missing c = record c {
  parsed = true;
  parse_err = if c.require then some no_header else none;
}
parse_of (broken e) c = record c { parsed = true; parse_err = some (header e) }

-- A call of the server, which reads some bytes or asks for the address, and its answer.
pub data Use : Type 0 where
  read : ℕ → Use
  ask_addr : Use

pub data Answer : Type 0 where
  bytes : Text → Answer
  refused : ConnError → Answer
  addr : TcpAddr → Answer

-- The bytes that a `Read` delivers, and those that stay.
abbrev pub deliver : Split → Text → Text × Text
deliver (split_at xs rest) all = (xs, rest)
deliver (short n) all = (all, [])

module _ (parse_ip : Text → Option (List ℕ)) where
  -- `once.Do(c.parse)`.
  unfoldable pub parse_once : Conn → Conn
  unfolding parse_of
  parse_once c = if c.parsed then c else parse_of (parse_header parse_ip c.stream) c

  -- `Read`, that is to deliver n bytes if there are so many, and `RemoteAddr`.
  unfoldable pub use_conn : Conn → Use → Conn × Answer
  use_conn c (read n) =
      let c' = parse_once c in
      let (xs, rest) = deliver (first_bytes n c'.stream.bytes) c'.stream.bytes in
      elim c'.parse_err [
        | some e ↦ (c', refused e)
        | none ↦ (record c' { stream = record { bytes = rest; end = c'.stream.end } }, bytes xs)
      ]
  use_conn c ask_addr =
      let c' = parse_once c in (c', addr (elim c'.remote_addr [ none ↦ c'.peer | some a ↦ a ]))

  unfoldable pub use_all : Conn → List Use → List Answer
  unfolding use_conn
  use_all c [] = []
  use_all c (u ∷ us) = let (c', a) = use_conn c u in a ∷ use_all c' us
