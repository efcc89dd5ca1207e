-- ===== src/RateLimit/FixedWindow/Budget.antt =====
-- The limit itself: what a window grants to each key, over any sequence of calls.
use Prim.Native.Nat.{min}
use parapet.Prelude.{
  ℕ, suc, ◌-◌, ◌/◌, ◌<◌, ◌≡◌, ◌≢◌, ite, List, [], ◌∷◌, Bool, Option, none, some, inl, inr, arith,
  ltb, ◌==◌, if◌then◌else◌, All, Option-cases,
}
use parapet.Prelude.Assoc
use parapet.RateLimit.FixedWindow.{FixedWindow, available, take}

-- The limiter can answer calls of window w: `Size` is positive, and the map is not nil if w has
-- been entered already.
pub record IsReady {K : Type 0} (b : FixedWindow K) (w : ℕ) : Type 0 where
  pub positive : 0 < b.size
  pub made : b.last_window ≡ w → b.storage ≢ none

module _ {K : Type 0} (dec : Discrete K) where
  -- The tokens that window w still has for a key.
  abbrev pub left : FixedWindow K → ℕ → K → ℕ
  left b w key = if b.last_window == w then available dec b key else b.max

  -- Calls of a key among the calls of a history, each with the clock's reading.
  abbrev pub requests : K → List (ℕ × K) → ℕ
  requests k [] = 0
  requests k ((now, key) ∷ calls) = ite (dec key k) (suc (requests k calls)) (requests k calls)

  -- How many of them `Take` grants, one call after the other.
  unfoldable pub granted : K → FixedWindow K → List (ℕ × K) → Option ℕ
  granted k b [] = some 0
  granted k b ((now, key) ∷ calls) = elim (take dec b now key) [
    | none ↦ none
    | some (b', g) ↦ elim (granted k b' calls) [
      | none ↦ none
      | some n ↦ some (ite (dec key k) (if g then suc n else n) n)
    ]
  ]

  take-ne-none :
      (b : FixedWindow K) (now : ℕ) (key : K) → IsReady b (now / b.size) → take dec b now key ≢ none
  unfolding take
  take-ne-none b now key r = ground (arith, r.made)

  module _ (b b' : FixedWindow K) (now w : ℕ) (key : K) (g : Bool) (at : now / b.size ≡ w)
      (r : IsReady b w) (e : take dec b now key ≡ some (b', g)) where
    take-IsReady : IsReady b' w × (b'.size ≡ b.size)
    unfolding take
    take-IsReady = (
      record { positive = ground (arith, r.made); made = ground (arith, r.made) },
      ground (arith, r.made),
    )

    grant-eq-left : g ≡ ltb 0 (left b w key)
    unfolding take Assoc.get
    grant-eq-left = ground (arith, r.made)

    left-take : (k : K) → left b' w k ≡ ite (dec key k) (left b w k - 1) (left b w k)
    unfolding take Assoc.get
    left-take k = elim (Option-cases b.storage) [
      | inl nil ↦ ground (arith, r.made, Assoc.get-put dec key k (b.max - 1) [])
      | inr (m, made) ↦ ground (
        arith,
        Assoc.get-put dec key k (b.max - 1) [],
        Assoc.get-put dec key k (available dec b key - 1) m,
      )
    ]

  -- In one window a key is granted as many calls as the window has tokens left for it, or all of
  -- its calls if they are fewer, whatever other keys do; and no call panics.
  pub granted-eq-min :
      (k : K) (w : ℕ) (b : FixedWindow K) (calls : List (ℕ × K))
      → IsReady b w
      → All (λ c. c.0 / b.size ≡ w) calls
      → granted k b calls ≡ some (min (left b w k) (requests k calls))
  unfolding granted
  granted-eq-min k w b [] r h = ground arith
  granted-eq-min k w b ((now, key) ∷ calls) r h = elim (Option-cases (take dec b now key)) [
    | inl e ↦ absurd (take-ne-none b now key (rw h.0 r) e)
    | inr ((b', g), e) ↦
        rw (e, granted)
          (let next = take-IsReady b b' now w key g h.0 r e in
            let rest = granted-eq-min k w b' calls next.0 (rw next.1 h.1) in
            rw rest (
              ground (
                arith,
                grant-eq-left b b' now w key g h.0 r e,
                left-take b b' now w key g h.0 r e k,
              )))
  ]
