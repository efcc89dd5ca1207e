-- ===== src/ProxyProtocol/Consumed.antt =====
-- How much of the stream a header takes.
use parapet.Prelude.{
  ℕ, zero, suc, ◌+◌, ◌-◌, ◌/◌, ◌%◌, ◌||◌, not, Bool, subst, get_elem?, ◌<◌, ◌≤◌, ◌≡◌, refl, ap, sym,
  ◌∙◌, List, [], ◌∷◌, ◌++◌, Option, none, some, true, false, Bool-cases, Option-cases, inl, inr,
  ◌⊎◌, arith, length, length-append, ltb, ◌==◌, if◌then◌else◌,
}
use mathlib.Core.List.{append_assoc}
use parapet.GoStrings.{Text}
use parapet.ProxyProtocol.Reader.{
  Stream, Error, buffer_full, ended, malformed, Result, ok, err, ◌>>=◌, read_slice, line, longer,
  Line, first_bytes, split_at, longer_split, short, Split, read_full, discard, buffer_size,
}
use parapet.ProxyProtocol.V1.{TcpAddr, v1_line, parse_v1, max_v1_line}
use parapet.ProxyProtocol.V2.{
  byte_at, uint16_at, addr_len_inet, addr_len_inet6, read_address, skip_payload, read_family,
  read_command, parse_v2,
}

-- The second stream is what is left of the first after n bytes.
pub record Consumes (n : ℕ) (s s' : Stream) : Type 0 where
  pub used : Text
  pub split : s.bytes ≡ used ++ s'.bytes
  pub size : length used ≡ n
  pub kept : s'.end ≡ s.end

Consumes-trans :
    {m n : ℕ} {s s' s'' : Stream} → Consumes m s s' → Consumes n s' s'' → Consumes (m + n) s s''
Consumes-trans {s''} h k = record {
  used = h.used ++ k.used;
  split =
      h.split ∙ ap (λ (t : Text). h.used ++ t) k.split ∙ sym (append_assoc h.used k.used s''.bytes);
  size = omega (arith, length-append h.used k.used, h.size, k.size);
  kept = k.kept ∙ h.kept;
}

longer_split_at :
    (c : ℕ) (sp : Split) (xs rest : Text)
    → longer_split c sp ≡ split_at xs rest
    → (ys : Text) × (xs ≡ c ∷ ys) × (sp ≡ split_at ys rest)
longer_split_at c (split_at ys r) xs rest e = (ys, ground arith, ground arith)
longer_split_at c (short m) xs rest e = absurd (cc)

pub first_bytes_split :
    (n : ℕ) (bytes xs rest : Text)
    → first_bytes n bytes ≡ split_at xs rest
    → (bytes ≡ xs ++ rest) × (length xs ≡ n)
unfolding first_bytes
first_bytes_split zero bytes xs rest e = ground arith
first_bytes_split (suc n) [] xs rest e = absurd (cc)
first_bytes_split (suc n) (c ∷ cs) xs rest e =
    let (ys, first, more) = longer_split_at c (first_bytes n cs) xs rest e in
    let rec = first_bytes_split n cs ys rest more in ground (arith, rec)

pub Split-cases :
    (sp : Split)
    → ((m : ℕ) × (sp ≡ short m)) ⊎ ((xs : Text) × (rest : Text) × (sp ≡ split_at xs rest))
Split-cases (split_at xs rest) = inr (xs, rest, refl)
Split-cases (short m) = inl (m, refl)

split_of_read :
    (n : ℕ) (s s' : Stream) (b : Text)
    → read_full n s ≡ ok b s'
    → (first_bytes n s.bytes ≡ split_at b s'.bytes) × (s'.end ≡ s.end)
unfolding read_full
split_of_read n s s' b e = elim (Split-cases (first_bytes n s.bytes)) [
  | inl (m, f) ↦ absurd (ground arith)
  | inr (xs, rest, f) ↦ ground arith
]

split_of_discard :
    (n : ℕ) (s s' : Stream)
    → discard n s ≡ ok tt s'
    → (xs : Text) × (first_bytes n s.bytes ≡ split_at xs s'.bytes) × (s'.end ≡ s.end)
unfolding discard
split_of_discard n s s' e = elim (Split-cases (first_bytes n s.bytes)) [
  | inl (m, f) ↦ absurd (ground arith)
  | inr (xs, rest, f) ↦ (xs, ground arith, ground arith)
]

read_full-Consumes : (n : ℕ) (s s' : Stream) (b : Text) → read_full n s ≡ ok b s' → Consumes n s s'
read_full-Consumes n s s' b e =
    let (at, kept) = split_of_read n s s' b e in
    let parts = first_bytes_split n s.bytes b s'.bytes at in
    record { used = b; split = parts.0; size = parts.1; kept = kept }

discard-Consumes : (n : ℕ) (s s' : Stream) → discard n s ≡ ok tt s' → Consumes n s s'
discard-Consumes n s s' e =
    let (xs, at, kept) = split_of_discard n s s' e in
    let parts = first_bytes_split n s.bytes xs s'.bytes at in
    record { used = xs; split = parts.0; size = parts.1; kept = kept }

>>=-eq-ok :
    {A B : Type 0} (m : Result A) (f : A → Stream → Result B) {b : B} {t : Stream}
    → (m >>= f) ≡ ok b t
    → (a : A) × (s : Stream) × (m ≡ ok a s) × (f a s ≡ ok b t)
>>=-eq-ok (ok a s) f h = (a, s, refl, h)
>>=-eq-ok (err e) f h = absurd (cc)

-- A result that took exactly n bytes, if it is one.
abbrev pub Took : {A : Type 0} → ℕ → Stream → Result A → Type 0
Took {A} n s r = (a : A) (t : Stream) → r ≡ ok a t → Consumes n s t

cast-Took : {A : Type 0} {m n : ℕ} {s : Stream} {r : Result A} → m ≡ n → Took m s r → Took n s r
cast-Took {s} {r} e h = subst (λ (k : ℕ). Took k s r) e h

ok-Took : {A : Type 0} (a : A) (s : Stream) → Took 0 s (ok a s)
ok-Took a s b t e = record { used = []; split = ground arith; size = refl; kept = ground arith }

err-Took : {A : Type 0} (n : ℕ) (s : Stream) (x : Error) → Took n s (let r : Result A = err x in r)
err-Took n s x b t e = absurd (cc)

if-Took :
    {A : Type 0} (n : ℕ) (s : Stream) (c : Bool) (x y : Result A)
    → Took n s x
    → Took n s y
    → Took n s (if c then x else y)
if-Took n s true x y h k = h
if-Took n s false x y h k = k

>>=-Took :
    {A B : Type 0} (m n : ℕ) (s : Stream) (r : Result A) (f : A → Stream → Result B)
    → Took m s r
    → ((a : A) (t : Stream) → Took n t (f a t))
    → Took (m + n) s (r >>= f)
>>=-Took m n s r f h k b u e =
    let (a, t, d, g) = >>=-eq-ok r f e in Consumes-trans (h a t d) (k a t b u g)

discard-Took : (n : ℕ) (s : Stream) → Took n s (discard n s)
discard-Took n s tt t e = discard-Consumes n s t e

read_full-Took : (n : ℕ) (s : Stream) → Took n s (read_full n s)
read_full-Took n s b t e = read_full-Consumes n s t b e

skip_payload-Took : (n : ℕ) (s : Stream) → Took n s (skip_payload n s)
unfolding skip_payload
skip_payload-Took n s =
    cast-Took (omega arith)
      (>>=-Took n 0 s (discard n s) _ (discard-Took n s) (λ _ t. ok-Took none t))

read_address-Took :
    (block ip_len port_at n : ℕ) (s : Stream) → Took n s (read_address block ip_len port_at n s)
unfolding read_address
read_address-Took block ip_len port_at n s = elim (Bool-cases (ltb n block)) [
  | inl low ↦ rw low (err-Took n s malformed)
  | inr room ↦ rw room (
      cast-Took (ground arith) (
        >>=-Took block (n - block + 0) s (read_full block s) _ (read_full-Took block s) (λ b t.
          >>=-Took (n - block) 0 t (discard (n - block) t) _ (discard-Took (n - block) t)
            (λ _ u. ok-Took _ u))))
]

read_family-Took : (family n : ℕ) (s : Stream) → Took n s (read_family family n s)
unfolding read_family
read_family-Took family n s =
    if-Took n s (family == 1) _ _ (read_address-Took addr_len_inet 4 8 n s) (
      if-Took n s (family == 2) _ _ (read_address-Took addr_len_inet6 16 32 n s) (
        if-Took n s (family == 0 || family == 3) _ _ (skip_payload-Took n s)
          (err-Took n s malformed)))

read_command-Took : (hdr : Text) (s : Stream) → Took (uint16_at hdr 14) s (read_command hdr s)
unfolding read_command
read_command-Took hdr s =
    let n : ℕ = uint16_at hdr 14 in
    if-Took n s (not (byte_at hdr 12 / 16 == 2)) _ _ (err-Took n s malformed) (
      if-Took n s (byte_at hdr 12 % 16 == 0) _ _ (skip_payload-Took n s) (
        if-Took n s (byte_at hdr 12 % 16 == 1) _ _ (read_family-Took (byte_at hdr 13 / 16) n s)
          (err-Took n s malformed)))

get-append_left : (xs ys : Text) (i : ℕ) → i < length xs → get_elem? (xs ++ ys) i ≡ get_elem? xs i
get-append_left [] ys i h = absurd (omega arith)
get-append_left (x ∷ xs) ys zero h = refl
get-append_left (x ∷ xs) ys (suc i) h = get-append_left xs ys i (omega arith)

-- A version 2 header that parses takes its sixteen bytes and the payload that they declare, whatever
-- the family and the command: the client's bytes start right after it.
pub parse_v2-Consumes :
    (s t : Stream) (source : Option TcpAddr)
    → parse_v2 s ≡ ok source t
    → Consumes (16 + uint16_at s.bytes 14) s t
unfolding parse_v2
parse_v2-Consumes s t source e =
    let (hdr, s', d, f) = >>=-eq-ok (read_full 16 s) (λ hdr s'. read_command hdr s') e in
    let front = read_full-Consumes 16 s s' hdr d in
    let at = split_of_read 16 s s' hdr d in
    let parts = first_bytes_split 16 s.bytes hdr s'.bytes at.0 in
    let same : (i : ℕ) → i < 16 → get_elem? s.bytes i ≡ get_elem? hdr i = λ i lt.
      ap (λ (b : Text). get_elem? b i) parts.0 ∙ get-append_left hdr s'.bytes i (omega arith) in
    let declared : uint16_at s.bytes 14 ≡ uint16_at hdr 14 =
      rw (same 14 (omega arith), byte_at) (rw (same 15 (omega arith), byte_at) refl) in
    rw declared (Consumes-trans front (read_command-Took hdr s' source t f))

longer_line :
    (c : ℕ) (r : Line) (l rest : Text)
    → longer c r ≡ line l rest
    → (m : Text) × (l ≡ c ∷ m) × (r ≡ line m rest)
longer_line c (line m more) l rest e = (m, ground arith, ground arith)
longer_line c buffer_full l rest e = absurd (cc)
longer_line c ended l rest e = absurd (cc)

Line-cases :
    (r : Line)
    → ((l : Text) × (rest : Text) × (r ≡ line l rest)) ⊎ ((r ≡ buffer_full) ⊎ (r ≡ ended))
Line-cases (line l rest) = inl (l, rest, refl)
Line-cases buffer_full = inr (inl refl)
Line-cases ended = inr (inr refl)

read_slice_split :
    (room : ℕ) (bytes l rest : Text) → read_slice room bytes ≡ line l rest → bytes ≡ l ++ rest
unfolding read_slice
read_slice_split zero bytes l rest e = absurd (cc)
read_slice_split (suc room) [] l rest e = absurd (cc)
read_slice_split (suc room) (c ∷ cs) l rest e = elim (Bool-cases (c == b'\n')) [
  | inl newline ↦ ground arith
  | inr other ↦
      let further : longer c (read_slice room cs) ≡ line l rest = ground arith in
      let (m, first, more) = longer_line c (read_slice room cs) l rest further in
      ground (arith, read_slice_split room cs m rest more)
]

length-v1_line :
    (parse_ip : Text → Option (List ℕ)) (l : Text) (source : Option TcpAddr)
    → v1_line parse_ip l ≡ some source
    → length l ≤ max_v1_line
unfolding v1_line
length-v1_line parse_ip l source e = ground arith

-- A version 1 header that parses is one line of at most 108 bytes.
pub parse_v1-Consumes :
    (parse_ip : Text → Option (List ℕ)) (s t : Stream) (source : Option TcpAddr)
    → parse_v1 parse_ip s ≡ ok source t
    → (n : ℕ) × (n ≤ max_v1_line) × Consumes n s t
unfolding parse_v1
parse_v1-Consumes parse_ip s t source e = elim (Line-cases (read_slice buffer_size s.bytes)) [
  | inr (inl full) ↦ absurd (ground arith)
  | inr (inr over) ↦ absurd (ground arith)
  | inl (l, rest, at) ↦ elim (Option-cases (v1_line parse_ip l)) [
    | inl bad ↦ absurd (ground arith)
    | inr (src, good) ↦
        let split = read_slice_split buffer_size s.bytes l rest at in
        (
          length l,
          length-v1_line parse_ip l src good,
          record { used = l; split = ground arith; size = refl; kept = ground arith },
        )
  ]
]
