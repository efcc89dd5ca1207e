-- ===== src/ProxyProtocol/RoundTrip.antt =====
-- A version 2 header as the protocol lays it out, and what the parser makes of it.
use parapet.Prelude.{
  ℕ, zero, suc, ◌+◌, ◌-◌, ◌*◌, ◌/◌, ◌%◌, ◌<◌, ◌≡◌, refl, ap, ◌∙◌, [], ◌∷◌, ◌++◌, some, arith,
  length, length-append, get_elem?, false, ltb,
}
use parapet.GoStrings.{Text}
use parapet.ProxyProtocol.Reader.{End, ok, first_bytes, split_at, longer_split, read_full, discard}
use parapet.ProxyProtocol.V2.{
  byte_at, uint16_at, leading, read_address, read_family, read_command, parse_v2,
}

first_bytes-append :
    (xs ys : Text) (n : ℕ) → length xs ≡ n → first_bytes n (xs ++ ys) ≡ split_at xs ys
unfolding first_bytes
first_bytes-append [] ys zero e = refl
first_bytes-append [] ys (suc n) e = absurd (omega arith)
first_bytes-append (x ∷ xs) ys zero e = absurd (omega arith)
first_bytes-append (x ∷ xs) ys (suc n) e =
    ap (longer_split x) (first_bytes-append xs ys n (omega arith))

read_full-append :
    (xs ys : Text) (end : End) (n : ℕ)
    → length xs ≡ n
    → read_full n (record { bytes = xs ++ ys; end = end })
      ≡ ok xs (record { bytes = ys; end = end })
unfolding read_full
read_full-append xs ys end n e = rw (first_bytes-append xs ys n e, read_full)

discard-append :
    (xs ys : Text) (end : End) (n : ℕ)
    → length xs ≡ n
    → discard n (record { bytes = xs ++ ys; end = end }) ≡ ok tt (record { bytes = ys; end = end })
unfolding discard
discard-append xs ys end n e = rw (first_bytes-append xs ys n e, discard)

get-append :
    (xs ys : Text) (n i : ℕ) → length xs ≡ n → get_elem? (xs ++ ys) (n + i) ≡ get_elem? ys i
get-append [] ys zero i e = ap (get_elem? ys) {x = 0 + i} {y = i} (omega arith)
get-append [] ys (suc n) i e = absurd (omega arith)
get-append (x ∷ xs) ys zero i e = absurd (omega arith)
get-append (x ∷ xs) ys (suc n) i e =
    ap (get_elem? (x ∷ (xs ++ ys))) {x = suc n + i} {y = suc (n + i)} (omega arith)
    ∙ get-append xs ys n i (omega arith)

pub data Family : Type 0 where
  inet inet6 : Family

-- The family's number, and the bytes of one address.
abbrev pub family_number : Family → ℕ
family_number inet = 1
family_number inet6 = 2

abbrev pub ip_length : Family → ℕ
ip_length inet = 4
ip_length inet6 = 16

abbrev pub ports : ℕ → ℕ → Text
ports sport dport = sport / 256 ∷ sport % 256 ∷ dport / 256 ∷ dport % 256 ∷ []

abbrev pub block : Text → Text → ℕ → ℕ → Text
block src dst sport dport = src ++ (dst ++ ports sport dport)

-- The header of a TCP connection, with its TLVs, and the bytes that the client sends after it.
unfoldable pub encode : Family → Text → Text → ℕ → ℕ → Text → Text → Text
encode family src dst sport dport tlvs body =
    let payload = block src dst sport dport in
    let n = length payload + length tlvs in
    0x0D
    ∷ 0x0A
    ∷ 0x0D
    ∷ 0x0A
    ∷ 0x00
    ∷ 0x0D
    ∷ 0x0A
    ∷ 0x51
    ∷ 0x55
    ∷ 0x49
    ∷ 0x54
    ∷ 0x0A
    ∷ 0x21
    ∷ (family_number family * 16 + 1)
    ∷ n / 256
    ∷ n % 256
    ∷ (payload ++ (tlvs ++ body))

leading-append : (n : ℕ) (xs ys : Text) → length xs ≡ n → leading n (xs ++ ys) ≡ xs
leading-append n xs ys e = rw (first_bytes-append xs ys n e, leading)

length-block :
    (n : ℕ) (src dst : Text) (sport dport : ℕ)
    → length src ≡ n
    → length dst ≡ n
    → length (block src dst sport dport) ≡ n + n + 4
length-block n src dst sport dport p q =
    omega
      (arith, length-append src (dst ++ ports sport dport), length-append dst (ports sport dport))

port_of_block :
    (n : ℕ) (src dst : Text) (sport dport : ℕ)
    → length src ≡ n
    → length dst ≡ n
    → uint16_at (block src dst sport dport) (n + n) ≡ sport
port_of_block n src dst sport dport p q =
    let b : Text = block src dst sport dport in
    let here : (i : ℕ) → get_elem? b (n + n + i) ≡ get_elem? (ports sport dport) i = λ i.
      ap (get_elem? b) {x = n + n + i} {y = n + (n + i)} (omega arith)
      ∙ get-append src (dst ++ ports sport dport) n (n + i) p
      ∙ get-append dst (ports sport dport) n i q in
    let high : get_elem? b (n + n) ≡ some (sport / 256) =
      ap (get_elem? b) {x = n + n} {y = n + n + 0} (omega arith) ∙ here 0 in
    let low : get_elem? b (n + n + 1) ≡ some (sport % 256) = here 1 in
    rw (high, byte_at) (rw (low, byte_at) (omega arith))

read_address-block :
    (n length_ : ℕ) (src dst : Text) (sport dport : ℕ) (tlvs body : Text) (end : End)
    → length src ≡ n
    → length dst ≡ n
    → length_ ≡ n + n + 4 + length tlvs
    → read_address
        (n + n + 4)
        n
        (n + n)
        length_
        (record { bytes = block src dst sport dport ++ (tlvs ++ body); end = end })
      ≡ ok (some (record { ip = src; port = sport })) (record { bytes = body; end = end })
unfolding read_address
read_address-block n length_ src dst sport dport tlvs body end p q size =
    let b : Text = block src dst sport dport in
    let room : ltb length_ (n + n + 4) ≡ false = ground arith in
    let whole = length-block n src dst sport dport p q in
    let read = read_full-append b (tlvs ++ body) end (n + n + 4) whole in
    let skipped = discard-append tlvs body end (length_ - (n + n + 4)) (omega arith) in
    rw room (
      rw read (
        rw skipped (
          rw (leading-append n src (dst ++ ports sport dport) p)
            (rw (port_of_block n src dst sport dport p q) refl))))

-- A header that carries a TCP source of either family is read as that source, whatever TLVs follow, and
-- what is left is what the client sent.
pub parse_v2-encode :
    (family : Family) (src dst : Text) (sport dport : ℕ) (tlvs body : Text) (end : End)
    → length src ≡ ip_length family
    → length dst ≡ ip_length family
    → length tlvs < 65536 - 36
    → parse_v2 (record { bytes = encode family src dst sport dport tlvs body; end = end })
      ≡ ok (some (record { ip = src; port = sport })) (record { bytes = body; end = end })
unfolding parse_v2 encode read_command read_family
parse_v2-encode inet src dst sport dport tlvs body end p q h =
    read_address-block 4 _ src dst sport dport tlvs body end p q
      (omega (arith, length-block 4 src dst sport dport p q))
parse_v2-encode inet6 src dst sport dport tlvs body end p q h =
    read_address-block 16 _ src dst sport dport tlvs body end p q
      (omega (arith, length-block 16 src dst sport dport p q))
