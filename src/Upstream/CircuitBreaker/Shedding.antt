-- ===== src/Upstream/CircuitBreaker/Shedding.antt =====
-- When the balancer sheds, and when it must not.
use parapet.Prelude.{
  ℕ, zero, suc, ◌+◌, ◌-◌, ◌%◌, ◌^◌, ◌≤◌, ◌<◌, ◌≡◌, ◌≢◌, refl, ◌∙◌, ap, List, [], ◌∷◌, Option, none,
  some, Bool, true, length, get_elem?, set, length-set, get_elem?-set_ne, All, All-get, arith,
  ℕ_discrete, Option-cases, inl, inr,
}
use parapet.Upstream.RoundRobin.Rotation.{turn}
use parapet.Upstream.CircuitBreaker.Word.{cb_unpack, cb_open, cb_closed}
use parapet.Upstream.CircuitBreaker.Config.{Config}
use parapet.Upstream.CircuitBreaker.Breaker.{Breaker, admit_closed, admit}
use parapet.Upstream.Gate.{up, index_at}
use parapet.Upstream.CircuitBreaker.Balancer.{
  Balancer, Picked, scan, pick, round_trip, unavailable, Trip,
}

-- The target is OPEN and its cooldown runs.
abbrev pub IsCooling : ℕ → Breaker → Type 0
IsCooling now b = ((cb_unpack b.word).state ≡ cb_open) × (now < b.opened_until)

cooling_refused :
    (c : Config) (now clock : ℕ) (b : Breaker)
    → IsCooling now b
    → admit c now clock b ≡ (b, some none)
unfolding admit
cooling_refused c now clock b h = ground arith

closed_admitted :
    (c : Config) (now clock : ℕ) (b : Breaker)
    → (cb_unpack b.word).state ≡ cb_closed
    → admit c now clock b ≡ (b, some (some (0, admit_closed)))
unfolding admit
closed_admitted c now clock b h = ground arith

set_same : {A : Type 0} (xs : List A) (i : ℕ) (x : A) → get_elem? xs i ≡ some x → set xs i x ≡ xs
set_same [] i x e = refl
set_same (y ∷ xs) zero x e = ground arith
set_same (y ∷ xs) (suc i) x e = ground (arith, set_same xs i x e)

module _ (c : Config) (now clock : ℕ) (gate : Option (List Bool)) (start : ℕ) where
  -- A round that looks at a cooling target goes on to the next one.
  scan_skip :
      (rounds k : ℕ) (bs : List Breaker) (b : Breaker)
      → get_elem? bs (index_at start k (length bs)) ≡ some b
      → IsCooling now b
      → scan (suc rounds) c now clock gate start k bs
        ≡ scan rounds c now clock gate start (k + 1) bs
  unfolding scan
  scan_skip rounds k bs b at h =
      let i : ℕ = index_at start k (length bs) in
      ground (arith, cooling_refused c now clock b h, set_same bs i b at)

  -- A scan over cooling targets makes no admission and moves nothing.
  scan_cooling :
      (rounds k : ℕ) (bs : List Breaker)
      → All (IsCooling now) bs
      → scan rounds c now clock gate start k bs ≡ (bs, none)
  unfolding scan
  scan_cooling zero k bs h = refl
  scan_cooling (suc rounds) k bs h =
      let i : ℕ = index_at start k (length bs) in
      let rest = scan_cooling rounds (k + 1) bs h in
      elim (Option-cases (get_elem? bs i)) [
        | inl past ↦ ground (arith, rest)
        | inr (b, at) ↦ scan_skip rounds k bs b at (All-get (IsCooling now) bs i h at) ∙ rest
      ]

  scan_here :
      (rounds k : ℕ) (bs : List Breaker) (b : Breaker)
      → up gate (index_at start k (length bs)) ≡ true
      → get_elem? bs (index_at start k (length bs)) ≡ some b
      → (cb_unpack b.word).state ≡ cb_closed
      → (scan (suc rounds) c now clock gate start k bs).1 ≢ none
  unfolding scan
  scan_here rounds k bs b u g s = ground (arith, closed_admitted c now clock b s)

  next_index :
      {k k' i : ℕ} (bs : List Breaker)
      → k ≡ k'
      → index_at start k' (length bs) ≡ i
      → index_at start k (length bs) ≡ i
  next_index bs p e = rw p e

  -- A CLOSED target that is up keeps the scan from coming back empty, if one of the rounds that are
  -- left looks at it.
  scan_finds :
      (rounds k j i : ℕ) (bs : List Breaker) (b : Breaker)
      → j < rounds
      → index_at start (k + j) (length bs) ≡ i
      → up gate i ≡ true
      → get_elem? bs i ≡ some b
      → (cb_unpack b.word).state ≡ cb_closed
      → (scan rounds c now clock gate start k bs).1 ≢ none
  unfolding scan
  scan_finds zero k j i bs b h at u g s = absurd (omega arith)
  scan_finds (suc rounds) k zero i bs b h at u g s =
      let e = next_index {k = k} bs (omega arith) at in scan_here rounds k bs b (rw e u) (rw e g) s
  scan_finds (suc rounds) k (suc j) i bs b h at u g s =
      let i' : ℕ = index_at start k (length bs) in
      let again = next_index {k = k + 1 + j} bs (omega arith) at in
      let same = scan_finds rounds (k + 1) j i bs b (omega arith) again u g s in
      elim (ℕ_discrete i' i) [
        | yes e ↦ scan_here rounds k bs b (rw e u) (rw e g) s
        | no other ↦ elim (Option-cases (get_elem? bs i')) [
          | inl past ↦ ground (arith, same)
          | inr (b', at') ↦
              let moved : List Breaker = set bs i' (admit c now clock b').0 in
              let kept : length moved ≡ length bs = length-set bs i' (admit c now clock b').0 in
              let found =
                scan_finds rounds (k + 1) j i moved b (omega arith) (rw kept again) u
                  (get_elem?-set_ne bs (admit c now clock b').0 other ∙ g) s in
              ground (arith, same, found)
        ]
      ]

-- When every target is OPEN and cools down, the request is refused with no round-trip, and nothing
-- but the cursor moves.
pub round_trip_sheds :
    (transport : ℕ → Trip) (now clock later : ℕ) (l : Balancer)
    → All (IsCooling now) l.breakers
    → ((round_trip transport now clock later l).1 ≡ unavailable)
      × ((round_trip transport now clock later l).0.breakers ≡ l.breakers)
unfolding round_trip
round_trip_sheds transport now clock later l h =
    let none_left =
      scan_cooling l.config now clock l.gate l.cursor (length l.breakers) 0 l.breakers h in
    ground (arith, none_left)

-- A CLOSED target that the health check does not hold down is never shed, while the cursor is not
-- about to wrap: `pick` finds it, or a target before it.
pub pick_finds :
    (now clock i : ℕ) (l : Balancer) (b : Breaker)
    → l.cursor + length l.breakers ≤ 2 ^ 32
    → i < length l.breakers
    → up l.gate i ≡ true
    → get_elem? l.breakers i ≡ some b
    → (cb_unpack b.word).state ≡ cb_closed
    → (pick now clock l).1 ≢ none
unfolding pick
pick_finds now clock i l b w h u g s =
    let (j, below, at) = turn l.cursor (length l.breakers) i h in
    scan_finds l.config now clock l.gate l.cursor (length l.breakers) 0 j i l.breakers b below
      (ap (λ (t : ℕ). t % length l.breakers) (omega arith) ∙ at) u g s

-- The cursor and the round are added in 32 bits. Over three targets a scan from the last cursor
-- before the wrap looks at the first target twice and never at the third: if the first two cool
-- down the request is shed, whatever the third would have answered.
pub pick_wraps :
    (now clock : ℕ) (l : Balancer) (b0 b1 b2 : Breaker)
    → l.cursor ≡ 2 ^ 32 - 1
    → l.breakers ≡ b0 ∷ b1 ∷ b2 ∷ []
    → IsCooling now b0
    → IsCooling now b1
    → (pick now clock l).1 ≡ none
unfolding pick
pick_wraps now clock l b0 b1 b2 w bs h0 h1 =
    rw (bs, w) (ap (λ (r : List Breaker × Option Picked). r.1) wrapped)
  where
    targets : List Breaker
    targets = b0 ∷ b1 ∷ b2 ∷ []

    wrapped : scan 3 l.config now clock l.gate (2 ^ 32 - 1) 0 targets ≡ (targets, none)
    wrapped =
        scan_skip l.config now clock l.gate (2 ^ 32 - 1) 2 0 targets b0 refl h0
        ∙ scan_skip l.config now clock l.gate (2 ^ 32 - 1) 1 1 targets b0 refl h0
        ∙ scan_skip l.config now clock l.gate (2 ^ 32 - 1) 0 2 targets b1 refl h1
        ∙ unfold scan in refl
