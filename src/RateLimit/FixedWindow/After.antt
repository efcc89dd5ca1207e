-- ===== src/RateLimit/FixedWindow/After.antt =====
-- What `After` promises to a client that `Take` refused.
use parapet.Prelude.{
  ℕ, ◌+◌, ◌-◌, ◌*◌, ◌/◌, ◌≤◌, ◌<◌, ◌≡◌, ap, ◌∙◌, ◌↔◌, ◌≢◌, [], ◌∷◌, Bool, none, some, true, false,
  arith,
}
use parapet.Prelude.Assoc
use parapet.RateLimit.FixedWindow.{FixedWindow, take, after}

-- The next boundary of a grid of step s is at most a step away, and lies in the next cell.
next_boundary : (now s : ℕ) → 0 < s → (now < (now / s + 1) * s) × ((now / s + 1) * s ≤ now + s)
next_boundary now s h = grind arith

div-boundary : (q s : ℕ) → 0 < s → (q * s) / s ≡ q
div-boundary q s h = grind arith

-- The first `Take` of a window is granted, and opens the window with one token gone.
opens_window :
    {K : Type 0} (dec : Discrete K) (b : FixedWindow K) (t w : ℕ) (key : K)
    → 0 < b.size
    → 0 < b.max
    → t / b.size ≡ w
    → b.last_window ≢ w
    → take dec b t key
      ≡ some (record b { last_window = w; storage = some ((key, b.max - 1) ∷ []) }, true)
unfolding take Assoc.get Assoc.put
opens_window dec b t w key s m e stale = ground arith

module _ {K : Type 0} (dec : Discrete K) (b : FixedWindow K) (now : ℕ) (key : K) where
  -- With a positive limit, whenever `Take` answers, `After` at the same moment answers too, and
  -- says 0 exactly when that `Take` is granted.
  pub after-take :
      (b' : FixedWindow K) (granted : Bool)
      → 0 < b.max
      → take dec b now key ≡ some (b', granted)
      → (after dec b now key ≢ none) × ((after dec b now key ≡ some 0) ↔ (granted ≡ true))
  unfolding take after Assoc.get
  after-take b' granted h e = ground (arith, next_boundary now b.size)

  refused :
      (b' : FixedWindow K)
      → take dec b now key ≡ some (b', false)
      → 0 < b.max
      → (0 < b.size)
        × (b'.size ≡ b.size)
        × (b'.max ≡ b.max)
        × (b'.last_window ≡ now / b.size)
        × (after dec b' now key ≡ some ((now / b.size + 1) * b.size - now))
  unfolding take after Assoc.get
  refused b' e h = ground arith

  -- A client that was refused and waits as long as `After` says is granted a token: the wait is
  -- positive and at most a window long.
  pub take-after_refused :
      (b' : FixedWindow K)
      → 0 < b.max
      → take dec b now key ≡ some (b', false)
      → (d : ℕ) × (after dec b' now key ≡ some d)
        × (0 < d)
        × (d ≤ b.size)
        × (b'' : FixedWindow K) × (take dec b' (now + d) key ≡ some (b'', true))
  take-after_refused b' h e =
      let (pos, size, max, last, wait) = refused b' e h in
      let s : ℕ = b.size in
      let bound = next_boundary now b.size pos in
      let sum : now + ((now / s + 1) * s - now) ≡ (now / s + 1) * s = omega arith in
      let at_boundary : (now + ((now / s + 1) * s - now)) / b'.size ≡ now / s + 1 =
        ap (λ (n : ℕ). n / b'.size) (sum) ∙ rw size (div-boundary (now / s + 1) s pos) in
      (
        (now / s + 1) * s - now,
        wait,
        omega arith,
        omega arith,
        record b' { last_window = now / s + 1; storage = some ((key, b'.max - 1) ∷ []) },
        opens_window dec b' (now + ((now / s + 1) * s - now)) (now / s + 1) key (omega arith)
            (omega arith) (at_boundary) (omega arith),
      )
