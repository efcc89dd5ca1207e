-- ===== src/Host.antt =====
-- pkg/host/host.go: the host of a request, brought to a normal form and matched against those of a block.
-- `strings.ToLower` is a parameter; where the code slices a text, `none` is the panic.
use parapet.Prelude.{
  ℕ, zero, suc, List, [], ◌∷◌, ◌++◌, Option, none, some, Bool, true, false, not, ◌&&◌, ◌||◌, ltb,
  leb, ◌==◌, if◌then◌else◌, map, length,
}
use parapet.GoStrings.{Text, text_eq, codes}
use parapet.GoStrings.HostPort.{split_host_port}
pub mod Canonical
pub mod Parents

infixl 10 ◌>>=◌
abbrev pub ◌>>=◌ {ℓ κ} : {A : Type ℓ} {B : Type κ} → Option A → (A → Option B) → Option B
none >>= f = none
some a >>= f = f a

-- `h[len(h)-1] == c`, where there is a last byte.
unfoldable pub last_is : ℕ → Text → Bool
last_is c [] = false
last_is c (d ∷ []) = d == c
last_is c (d ∷ e ∷ s) = last_is c (e ∷ s)

unfoldable pub butlast : Text → Text
butlast [] = []
butlast (c ∷ []) = []
butlast (c ∷ d ∷ s) = c ∷ butlast (d ∷ s)

-- `h[:len(h)-1]`.
unfoldable pub drop_last : Text → Option Text
unfolding butlast
drop_last [] = none
drop_last (c ∷ s) = some (butlast (c ∷ s))

-- The scan's flags.
pub record Scan : Type 0 where
  pub needs_lower : Bool
  pub has_colon : Bool

abbrev pub is_upper : ℕ → Bool
is_upper c = leb b'A' c && leb c b'Z'

unfoldable pub scan : Text → Scan
scan [] = record { needs_lower = false; has_colon = false }
scan (c ∷ s) =
    let rest = scan s in
    if is_upper c
    then record rest { needs_lower = true }
    else if c == b':'
    then record rest { has_colon = true }
    else if leb 128 c
    then record rest { needs_lower = true }
    else rest

-- `h[0] == '[' && h[len(h)-1] == ']'`.
unfoldable pub bracketed : Text → Bool
unfolding last_is
bracketed [] = false
bracketed (c ∷ s) = c == b'[' && last_is b']' (c ∷ s)

-- `h[1 : len(h)-1]` of a bracketed text.
unfoldable pub inner : Text → Text
unfolding butlast
inner [] = []
inner (c ∷ s) = butlast s

-- The host without its port.
unfoldable pub unwrap : Text → Text
unfolding bracketed inner
unwrap h = elim (split_host_port h) [ some host ↦ host | none ↦ if bracketed h then inner h else h ]

module _ (to_lower : Text → Text) where
  abbrev pub lowered : Bool → Option Text → Option Text
  lowered needs_lower none = none
  lowered needs_lower (some h) = some (if needs_lower then to_lower h else h)

  unfoldable pub normalize_host_slow : Text → Bool → Bool → Bool → Option Text
  normalize_host_slow h has_colon trailing_dot needs_lower =
      let bare = if has_colon then unwrap h else h in
      let dotted = if has_colon && not (text_eq bare []) then last_is b'.' bare else trailing_dot in
      lowered needs_lower (if dotted then drop_last bare else some bare)

  unfoldable pub normalize_host : Text → Option Text
  normalize_host [] = some []
  normalize_host (c ∷ s) =
      let flags = scan (c ∷ s) in
      let trailing_dot = last_is b'.' (c ∷ s) in
      if not flags.needs_lower && not flags.has_colon && not trailing_dot
      then some (c ∷ s)
      else normalize_host_slow (c ∷ s) flags.has_colon trailing_dot flags.needs_lower

-- A set of hosts, for the map to Booleans.
unfoldable pub listed : Text → List Text → Bool
unfolding text_eq
listed h [] = false
listed h (x ∷ xs) = text_eq h x || listed h xs

-- The first label and what stands behind its dot.
unfoldable pub cut_label : Text → Option (Text × Text)
cut_label [] = none
cut_label (c ∷ s) =
    if c == b'.'
    then some ([], s)
    else elim (cut_label s) [ none ↦ none | some (label, rest) ↦ some (c ∷ label, rest) ]

-- The loop over the parents of a host.
unfoldable pub wildcard : ℕ → List Text → Text → Bool
unfolding listed cut_label
wildcard zero hosts h = false
wildcard (suc fuel) hosts h = elim (cut_label h) [
  | none ↦ false
  | some ([], rest) ↦ false
  | some (c ∷ label, rest) ↦
      let deeper = wildcard fuel hosts rest in listed (b'*' ∷ b'.' ∷ rest) hosts || deeper
]

-- The matching function on a normalized host.
unfoldable pub matches : List Text → Text → Bool
unfolding listed wildcard
matches hosts h = listed h hosts || wildcard (length h) hosts h

pub data Matcher : Type 0 where
  never : Matcher
  always : Matcher
  hosts_of : List Text → Matcher

module _ (to_lower : Text → Text) where
  unfoldable pub normalize_all : List Text → Option (List Text)
  unfolding normalize_host
  normalize_all [] = some []
  normalize_all (h ∷ hs) = do
    first ← normalize_host to_lower h
    others ← normalize_all hs
    some (first ∷ others)

  abbrev pub matcher_of : List Text → Matcher
  matcher_of [] = never
  matcher_of (h ∷ hs) = if listed (codes "*") (h ∷ hs) then always else hosts_of (h ∷ hs)

  unfoldable pub new : List Text → Option Matcher
  unfolding listed normalize_all
  new hosts = do normal ← normalize_all hosts; some (matcher_of normal)

  unfoldable pub match_request : Matcher → Text → Option Bool
  unfolding normalize_host matches
  match_request never host = some false
  match_request always host = some true
  match_request (hosts_of hosts) host = do h ← normalize_host to_lower host; some (matches hosts h)
