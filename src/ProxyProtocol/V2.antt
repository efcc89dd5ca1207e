-- ===== src/ProxyProtocol/V2.antt =====
-- pkg/proxyprotocol/parse.go, `parseV2`: the binary header of version 2.
use parapet.Prelude.{
  ℕ, ◌+◌, ◌-◌, ◌*◌, ◌/◌, ◌%◌, [], ◌∷◌, Option, none, some, not, ltb, ◌||◌, ◌==◌, if◌then◌else◌,
  get_elem?,
}
use parapet.GoStrings.{Text}
use parapet.ProxyProtocol.Reader.{
  Stream, Result, ok, err, malformed, ◌>>=◌, read_full, discard, first_bytes, split_at, short,
}
use parapet.ProxyProtocol.V1.{TcpAddr}

abbrev pub signature : Text
signature = 0x0D ∷ 0x0A ∷ 0x0D ∷ 0x0A ∷ 0x00 ∷ 0x0D ∷ 0x0A ∷ 0x51 ∷ 0x55 ∷ 0x49 ∷ 0x54 ∷ 0x0A ∷ []

-- A byte of an array that `ReadFull` has filled.
abbrev pub byte_at : Text → ℕ → ℕ
byte_at b i = elim (get_elem? b i) [ none ↦ 0 | some c ↦ c ]

-- `binary.BigEndian.Uint16(b[i:i+2])`.
abbrev pub uint16_at : Text → ℕ → ℕ
uint16_at b i = byte_at b i * 256 + byte_at b (i + 1)

abbrev pub leading : ℕ → Text → Text
leading n b = elim (first_bytes n b) [ split_at xs rest ↦ xs | short m ↦ b ]

abbrev pub addr_len_inet : ℕ
addr_len_inet = 12

abbrev pub addr_len_inet6 : ℕ
addr_len_inet6 = 36

-- The two cases with an address: its block, of which `ip_len` bytes are the source's and `port_at` the
-- place of its port, and then the rest of the payload.
unfoldable pub read_address : ℕ → ℕ → ℕ → ℕ → Stream → Result (Option TcpAddr)
unfolding read_full discard
read_address block ip_len port_at length s =
    if ltb length block
    then err malformed
    else (read_full block s >>= λ b s'. discard (length - block) s' >>= λ _ s''.
        ok (some (record { ip = leading ip_len b; port = uint16_at b port_at })) s'')

unfoldable pub skip_payload : ℕ → Stream → Result (Option TcpAddr)
unfolding discard
skip_payload length s = discard length s >>= λ _ s'. ok none s'

-- The `switch` on the family, after a PROXY command.
unfoldable pub read_family : ℕ → ℕ → Stream → Result (Option TcpAddr)
unfolding read_address skip_payload
read_family family length s =
    if family == 1
    then read_address addr_len_inet 4 8 length s
    else if family == 2
    then read_address addr_len_inet6 16 32 length s
    else if family == 0 || family == 3
    then skip_payload length s
    else err malformed

-- What follows the sixteen bytes of the fixed header.
unfoldable pub read_command : Text → Stream → Result (Option TcpAddr)
unfolding read_family skip_payload
read_command hdr s =
    let ver_cmd = byte_at hdr 12 in
    let length = uint16_at hdr 14 in
    if not (ver_cmd / 16 == 2)
    then err malformed
    else if ver_cmd % 16 == 0
    then skip_payload length s
    else if ver_cmd % 16 == 1
    then read_family (byte_at hdr 13 / 16) length s
    else err malformed

unfoldable pub parse_v2 : Stream → Result (Option TcpAddr)
unfolding read_full read_command
parse_v2 s = read_full 16 s >>= λ hdr s'. read_command hdr s'
