-- ===== src/ProxyProtocol/Session.antt =====
-- What a server sees of a wrapped connection, over any sequence of its calls.
use parapet.Prelude.{
  ℕ, ◌≡◌, refl, ◌∙◌, sym, List, [], ◌∷◌, ◌++◌, Option, none, some, true, false, arith, subst, inl,
  inr, Option-cases, if◌then◌else◌,
}
use mathlib.Core.List.{append-nil}
use parapet.GoStrings.{Text}
use parapet.ProxyProtocol.Reader.{first_bytes}
use parapet.ProxyProtocol.V1.{TcpAddr}
use parapet.ProxyProtocol.Header.{Parsed, found, missing, broken, parse_header}
use parapet.ProxyProtocol.Consumed.{first_bytes_split, Split-cases}
use parapet.ProxyProtocol.Connection.{
  Conn, ConnError, no_header, header, Use, read, ask_addr, Answer, bytes, refused, addr, deliver,
  parse_once, parse_of, use_conn, use_all,
}

-- What the header settles: the address, and the client's bytes or an error.
pub record Settled : Type 0 where
  pub remote : TcpAddr
  pub error : Option ConnError
  pub content : Text

unfoldable pub settled : Parsed → Conn → Settled
settled (found source s) c = record {
  remote = elim source [ none ↦ c.peer | some a ↦ a ];
  error = none;
  content = s.bytes;
}
settled missing c = record {
  remote = c.peer;
  error = if c.require then some no_header else none;
  content = c.stream.bytes;
}
settled (broken e) c = record { remote = c.peer; error = some (header e); content = c.stream.bytes }

-- Answers that agree with it: the bytes of the reads, in their order, are those of the content.
unfoldable pub Agree : Settled → Text → List Use → List Answer → Type 0
Agree s left [] [] = Unit
Agree s left (read n ∷ us) (bytes xs ∷ answers) =
    (s.error ≡ none) × (rest : Text) × (left ≡ xs ++ rest) × Agree s rest us answers
Agree s left (read n ∷ us) (refused e ∷ answers) = (s.error ≡ some e) × Agree s left us answers
Agree s left (ask_addr ∷ us) (addr a ∷ answers) = (a ≡ s.remote) × Agree s left us answers
Agree s left _ _ = ⊥

-- A connection whose header is parsed.
pub record IsSettled (s : Settled) (left : Text) (c : Conn) : Type 0 where
  pub parsed : c.parsed ≡ true
  pub error : c.parse_err ≡ s.error
  pub remote : elim c.remote_addr [ none ↦ c.peer | some a ↦ a ] ≡ s.remote
  pub rest : c.stream.bytes ≡ left

deliver_split :
    (n : ℕ) (all : Text)
    → all ≡ (deliver (first_bytes n all) all).0 ++ (deliver (first_bytes n all) all).1
deliver_split n all = elim (Split-cases (first_bytes n all)) [
  | inl (m, e) ↦ rw (e, deliver) (sym (append-nil all))
  | inr (xs, rest, e) ↦ rw (e, deliver) (first_bytes_split n all xs rest e).0
]

parse_of-IsSettled :
    (r : Parsed) (c : Conn)
    → c.remote_addr ≡ none
    → c.parse_err ≡ none
    → IsSettled (settled r c) (settled r c).content (parse_of r c)
unfolding parse_of settled
parse_of-IsSettled (found source s) c n e = record {
  parsed = refl;
  error = e;
  remote = refl;
  rest = refl;
}
parse_of-IsSettled missing c n e = record {
  parsed = refl;
  error = refl;
  remote = rw n refl;
  rest = refl;
}
parse_of-IsSettled (broken x) c n e = record {
  parsed = refl;
  error = refl;
  remote = rw n refl;
  rest = refl;
}

module _ (parse_ip : Text → Option (List ℕ)) where
  parse_once_done : (c : Conn) → c.parsed ≡ true → parse_once parse_ip c ≡ c
  unfolding parse_once
  parse_once_done c p = ground arith

  parse_once_first :
      (c : Conn)
      → c.parsed ≡ false
      → parse_once parse_ip c ≡ parse_of (parse_header parse_ip c.stream) c
  unfolding parse_once
  parse_once_first c p = ground arith

  abbrev delivered : Conn → ℕ → Text × Text
  delivered c n =
      deliver (first_bytes n (parse_once parse_ip c).stream.bytes)
        (parse_once parse_ip c).stream.bytes

  abbrev after_read : Conn → ℕ → Conn
  after_read c n =
      let c' = parse_once parse_ip c in
      record c' { stream = record { bytes = (delivered c n).1; end = c'.stream.end } }

  use_refused :
      (c : Conn) (n : ℕ) (e : ConnError)
      → (parse_once parse_ip c).parse_err ≡ some e
      → use_conn parse_ip c (read n) ≡ (parse_once parse_ip c, refused e)
  unfolding use_conn
  use_refused c n e h = ground (arith, h)

  use_served :
      (c : Conn) (n : ℕ)
      → (parse_once parse_ip c).parse_err ≡ none
      → use_conn parse_ip c (read n) ≡ (after_read c n, bytes (delivered c n).0)
  unfolding use_conn
  use_served c n h = ground (arith, h)

  -- The answers of calls one after another, the first of which may parse the header.
  use_all-Agree :
      (s : Settled) (left : Text) (c : Conn) (us : List Use)
      → IsSettled s left (parse_once parse_ip c)
      → Agree s left us (use_all parse_ip c us)
  unfolding use_all Agree
  use_all-Agree s left c [] h = tt
  use_all-Agree s left c (read n ∷ us) h = elim (Option-cases (parse_once parse_ip c).parse_err) [
    | inr (e, some_err) ↦ rw (use_refused c n e some_err) (
      sym h.error ∙ some_err,
      use_all-Agree s left (parse_once parse_ip c) us
          (subst (IsSettled s left) (sym (parse_once_done _ h.parsed)) h),
    )
    | inl no_err ↦
        let rest : Text = (delivered c n).1 in
        rw (use_served c n no_err) (
          sym h.error ∙ no_err,
          rest,
          sym h.rest ∙ deliver_split n (parse_once parse_ip c).stream.bytes,
          use_all-Agree s rest (after_read c n) us (
              subst (IsSettled s rest) (sym (parse_once_done (after_read c n) h.parsed))
                (record { parsed = h.parsed; error = h.error; remote = h.remote; rest = refl })),
        )
  ]
  use_all-Agree s left c (ask_addr ∷ us) h = (
    h.remote,
    use_all-Agree s left (parse_once parse_ip c) us
        (subst (IsSettled s left) (sym (parse_once_done _ h.parsed)) h),
  )

  -- Over any calls of `Read` and `RemoteAddr` on a connection that is just wrapped, the header is parsed
  -- once: the address is the same in every answer, and either every read is refused for the same reason
  -- or the reads deliver the bytes after the header in their order, none lost and none twice. Without a
  -- header these are all bytes of the stream, and the address is the peer's.
  pub use_all-settled :
      (c : Conn) (us : List Use)
      → c.parsed ≡ false
      → c.remote_addr ≡ none
      → c.parse_err ≡ none
      → Agree
          (settled (parse_header parse_ip c.stream) c)
          (settled (parse_header parse_ip c.stream) c).content
          us
          (use_all parse_ip c us)
  use_all-settled c us p n e =
      let r : Parsed = parse_header parse_ip c.stream in
      use_all-Agree (settled r c) (settled r c).content c us (
        subst (IsSettled (settled r c) (settled r c).content) (sym (parse_once_first c p))
          (parse_of-IsSettled r c n e))
