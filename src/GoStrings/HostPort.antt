-- ===== src/GoStrings/HostPort.antt =====
-- `net.SplitHostPort`, as far as its callers look: the host, or a failure.
use parapet.Prelude.{ℕ, [], ◌∷◌, Option, none, some, not, ◌||◌, ◌==◌, if◌then◌else◌}
use parapet.GoStrings.{Text, text_eq, contains_byte, before_byte, to_lower}

-- The texts before and after the last byte c.
unfoldable pub cut_last : ℕ → Text → Option (Text × Text)
cut_last c [] = none
cut_last c (d ∷ s) = elim (cut_last c s) [
  | none ↦ if d == c then some ([], s) else none
  | some (before, after) ↦ some (d ∷ before, after)
]

-- What stands behind the first byte c.
unfoldable pub after_byte : ℕ → Text → Text
after_byte c [] = []
after_byte c (d ∷ s) = if d == c then s else after_byte c s

-- A text in brackets must be followed by the last colon; otherwise the host has no colon. No other
-- bracket may stand anywhere.
unfoldable pub split_host_port : Text → Option Text
unfolding cut_last after_byte
split_host_port [] = none
split_host_port (c ∷ s) = elim (cut_last b':' (c ∷ s)) [
  | none ↦ none
  | some (before, port) ↦
      if c == b'['
      then (let host = before_byte b']' s in
          let rest = after_byte b']' s in
          if not (contains_byte b']' s)
            || not (text_eq rest (b':' ∷ port))
            || contains_byte b'[' s
            || contains_byte b']' rest
          then none
          else some host)
      else if contains_byte b':' before || contains_byte b'[' (c ∷ s) || contains_byte b']' (c ∷ s)
      then none
      else some before
]

-- `normHost` of the purge table and `normalizeHost` of the cache.
unfoldable pub norm_host : Text → Text
unfolding split_host_port
norm_host host = let h = to_lower host in elim (split_host_port h) [ none ↦ h | some hh ↦ hh ]
