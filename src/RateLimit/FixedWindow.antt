-- ===== src/RateLimit/FixedWindow.antt =====
-- pkg/ratelimit/fixedwindow.go. The clock's reading, in nanoseconds since the epoch, is an argument
-- of each call. `none` is a panic: a division by a zero `Size`, or a write to the nil map.
pub mod After
pub mod Budget
use parapet.Prelude.{
  ℕ, ◌+◌, ◌-◌, ◌*◌, ◌/◌, List, [], ◌∷◌, Option, none, some, Bool, true, false, ◌==◌, if◌then◌else◌,
}
use parapet.Prelude.Assoc

-- `storage` is `none` while the Go map is nil. `Max` is a natural number: a negative one would
-- behave as 0 does.
pub record FixedWindow (K : Type 0) : Type 0 where
  pub last_window : ℕ
  pub storage : Option (List (K × ℕ))
  pub max : ℕ
  pub size : ℕ

unfoldable pub new : {K : Type 0} → ℕ → ℕ → FixedWindow K
new rate unit = record { last_window = 0; storage = none; max = rate; size = unit }

module _ {K : Type 0} (dec : Discrete K) where
  -- A read of the map, which a nil map answers too.
  abbrev pub lookup : K → Option (List (K × ℕ)) → Option ℕ
  lookup key none = none
  lookup key (some m) = Assoc.get dec key m

  -- The tokens left for a key: all of them, if it has no bucket yet.
  abbrev pub available : FixedWindow K → K → ℕ
  available b key = elim (lookup key b.storage) [ none ↦ b.max | some n ↦ n ]

  -- The window of the call: an outdated one is replaced by a new, empty window.
  unfoldable pub enter_window : FixedWindow K → ℕ → FixedWindow K
  enter_window b current = record b {
    last_window = current;
    storage = if b.last_window == current then b.storage else some [];
  }

  -- `b.storage[key] = available - 1`, behind the test for a token.
  unfoldable pub take_token : FixedWindow K → K → ℕ → Option (FixedWindow K × Bool)
  take_token b key n = if n == 0 then some (b, false) else elim b.storage [
    | none ↦ none
    | some m ↦ some (record b { storage = some (Assoc.put dec key (n - 1) m) }, true)
  ]

  unfoldable pub take : FixedWindow K → ℕ → K → Option (FixedWindow K × Bool)
  unfolding enter_window take_token
  take b now key =
      if b.size == 0
      then none
      else let b' = enter_window b (now / b.size) in take_token b' key (available b' key)

  unfoldable pub after : FixedWindow K → ℕ → K → Option ℕ
  after b now key =
      if b.size == 0
      then none
      else if b.last_window == now / b.size
      then elim (lookup key b.storage) [
        | none ↦ some 0
        | some n ↦ if n == 0 then some ((now / b.size + 1) * b.size - now) else some 0
      ]
      else some 0
