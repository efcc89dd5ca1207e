-- ===== src/ProxyProtocol/Reader.antt =====
-- The bufio.Reader over a connection, as pkg/proxyprotocol/parse.go uses it: `ReadSlice`, `ReadFull` and
-- `Discard`, over the bytes that the peer sends until its stream ends.
use parapet.Prelude.{ℕ, zero, suc, [], ◌∷◌, ◌==◌, if◌then◌else◌}
use parapet.GoStrings.{Text}

-- How the stream ends: the peer closes it, or a read fails otherwise, as at the deadline.
pub data End : Type 0 where
  closed failed : End

pub record Stream : Type 0 where
  pub bytes : Text
  pub end : End

pub data IoError : Type 0 where
  eof unexpected_eof other_error : IoError

pub data Error : Type 0 where
  malformed : Error
  io : IoError → Error

pub data Result (A : Type 0) : Type 0 where
  ok : A → Stream → Result A
  err : Error → Result A

infixl 5 ◌>>=◌
abbrev pub ◌>>=◌ : {A B : Type 0} → Result A → (A → Stream → Result B) → Result B
ok a s >>= f = f a s
err e >>= f = err e

-- The bytes that `bufio.NewReader` buffers.
abbrev pub buffer_size : ℕ
buffer_size = 4096

abbrev pub end_error : End → IoError
end_error closed = eof
end_error failed = other_error

-- `ReadSlice('\n')`: a line with its newline, a full buffer without one, or the end of the stream.
pub data Line : Type 0 where
  line : Text → Text → Line
  buffer_full : Line
  ended : Line

abbrev pub longer : ℕ → Line → Line
longer c (line l rest) = line (c ∷ l) rest
longer c buffer_full = buffer_full
longer c ended = ended

unfoldable pub read_slice : ℕ → Text → Line
read_slice zero bytes = buffer_full
read_slice (suc room) [] = ended
read_slice (suc room) (c ∷ cs) =
    if c == b'\n' then line (c ∷ []) cs else longer c (read_slice room cs)

-- The first n bytes and the rest, or how many of the n there are.
pub data Split : Type 0 where
  split_at : Text → Text → Split
  short : ℕ → Split

abbrev pub longer_split : ℕ → Split → Split
longer_split c (split_at xs rest) = split_at (c ∷ xs) rest
longer_split c (short n) = short (suc n)

unfoldable pub first_bytes : ℕ → Text → Split
first_bytes zero bytes = split_at [] bytes
first_bytes (suc n) [] = short 0
first_bytes (suc n) (c ∷ cs) = longer_split c (first_bytes n cs)

-- `io.ReadFull`: a close in the middle is an unexpected one.
unfoldable pub full_error : ℕ → End → IoError
full_error zero end = end_error end
full_error (suc n) closed = unexpected_eof
full_error (suc n) failed = other_error

unfoldable pub read_full : ℕ → Stream → Result Text
unfolding first_bytes full_error
read_full n s = elim (first_bytes n s.bytes) [
  | split_at xs rest ↦ ok xs (record s { bytes = rest })
  | short m ↦ err (io (full_error m s.end))
]

-- `discard`, whose n is never negative here.
unfoldable pub discard : ℕ → Stream → Result (Unit {0})
unfolding first_bytes
discard n s = elim (first_bytes n s.bytes) [
  | split_at xs rest ↦ ok tt (record s { bytes = rest })
  | short m ↦ err (io (end_error s.end))
]
