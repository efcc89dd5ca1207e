-- ===== src/Upstream/LeastConn/Weigh.antt =====
-- The loads of the peers, and one turn of the loop in `pick`.
use parapet.Prelude.{
  ℕ, ◌-◌, ◌*◌, ◌^◌, ◌<◌, ◌≤◌, ◌≡◌, refl, sym, ◌∙◌, subst, List, Option, none, some, Bool, true,
  false, ◌||◌, arith, ltb, get_elem?, All, All-get, Bool-cases, inl, inr,
}
use mathlib.Core.Option.{some-injective}
use native.Mathlib.Nat.{le_of_mul-le-mul_right, mul-le-mul_right, mul-le-mul}
use parapet.GoInt64.{mul, sign_bit, less-nonneg}
use parapet.Upstream.Gate.{up}
use parapet.Upstream.LeastConn.{Peer, Best, full, better, weigh}

-- Loads and weights whose products stay in an int64.
abbrev pub IsSmall : Peer → Type 0
IsSmall c = (0 < c.weight) × (c.weight < 2 ^ 31) × (c.active < 2 ^ 31)

-- a / w ≤ a' / w', multiplied out.
abbrev pub LightLoad : ℕ → ℕ → ℕ → ℕ → Type 0
LightLoad a w a' w' = a * w' ≤ a' * w

pub LightLoad-trans :
    (a w a' w' a'' w'' : ℕ)
    → 0 < w'
    → LightLoad a w a' w'
    → LightLoad a' w' a'' w''
    → LightLoad a w a'' w''
LightLoad-trans a w a' w' a'' w'' p h k =
    le_of_mul-le-mul_right (omega (arith, mul-le-mul_right w'' h, mul-le-mul_right w k)) p

small-mul : (a w : ℕ) → a < 2 ^ 31 → w < 2 ^ 31 → a * w < sign_bit
small-mul a w h k = omega (
  arith,
  mul-le-mul {n₁ = a} {m₁ = w} {n₂ = 2 ^ 31 - 1} {m₂ = 2 ^ 31 - 1} (omega arith) (omega arith),
)

mul-small : (a w : ℕ) → a < 2 ^ 31 → w < 2 ^ 31 → mul a w ≡ a * w
unfolding mul
mul-small a w h k = omega (arith, small-mul a w h k)

abbrev pub Lighter : Best → ℕ → ℕ → Type 0
Lighter b a w = LightLoad b.active b.weight a w

module _ (fail_open : Bool) (gate : Option (List Bool)) (peers : List Peer) where
  -- The scan passed over no gate, and found room on the peer and the load that it read there.
  pub record IsOpen (b : Best) : Type 0 where
    pub admitted : (fail_open || up gate b.idx) ≡ true
    pub peer : Peer
    pub here : get_elem? peers b.idx ≡ some peer
    pub room : full peer ≡ false
    pub load : b.active ≡ peer.active
    pub share : b.weight ≡ peer.weight

  -- A best peer that stands for a load.
  pub record Beats (a w : ℕ) (o : Option Best) : Type 0 where
    pub best : Best
    pub found : o ≡ some best
    pub is_open : IsOpen best
    pub lighter : Lighter best a w

  abbrev best_of : ℕ → Peer → Best
  best_of idx c = record { idx = idx; active = c.active; weight = c.weight }

  better-eq :
      (c : Peer) (b : Best)
      → IsSmall c
      → b.active < 2 ^ 31
      → b.weight < 2 ^ 31
      → better c (some b) ≡ ltb (c.active * b.weight) (b.active * c.weight)
  unfolding better
  better-eq c b small ha hw = rw (mul-small c.active b.weight small.2 hw) (
      rw (mul-small b.active c.weight ha small.1) (
        less-nonneg (c.active * b.weight) (b.active * c.weight)
          (small-mul c.active b.weight small.2 hw) (small-mul b.active c.weight ha small.1)))

  IsOpen-here :
      (idx : ℕ) (c : Peer)
      → (fail_open || up gate idx) ≡ true
      → get_elem? peers idx ≡ some c
      → full c ≡ false
      → IsOpen (best_of idx c)
  IsOpen-here idx c ok at room = record {
    admitted = ok;
    peer = c;
    here = at;
    room = room;
    load = refl;
    share = refl;
  }

  -- Every best peer of a scan is open.
  unfoldable pub AllOpen : Option Best → Type 0
  AllOpen o = (b : Best) → o ≡ some b → IsOpen b

  module _ (small : All IsSmall peers) where
    better_of_open :
        (idx : ℕ) (c : Peer) (b : Best)
        → get_elem? peers idx ≡ some c
        → IsOpen b
        → better c (some b) ≡ ltb (c.active * b.weight) (b.active * c.weight)
    better_of_open idx c b at o =
        let there = All-get IsSmall peers b.idx small o.here in
        better-eq c b (All-get IsSmall peers idx small at) (omega arith) (omega arith)

    weigh_of_full : (idx : ℕ) (c : Peer) (o : Option Best) → full c ≡ true → weigh idx c o ≡ o
    unfolding weigh
    weigh_of_full idx c o e = ground arith

    -- A peer that is looked at keeps the best one so far, or replaces it by a lighter one.
    pub weigh-Beats :
        (idx : ℕ) (c : Peer) (b : Best)
        → (fail_open || up gate idx) ≡ true
        → get_elem? peers idx ≡ some c
        → IsOpen b
        → Beats b.active b.weight (weigh idx c (some b))
    unfolding weigh
    weigh-Beats idx c b ok at o =
        let lighter = better_of_open idx c b at o in
        elim (Bool-cases (full c)) [
          | inl e ↦ record { best = b; found = ground arith; is_open = o; lighter = omega arith }
          | inr e ↦ elim (Bool-cases (better c (some b))) [
            | inl wins ↦ record {
              best = best_of idx c;
              found = ground arith;
              is_open = IsOpen-here idx c ok at e;
              lighter = ground arith;
            }
            | inr loses ↦ record {
              best = b;
              found = ground arith;
              is_open = o;
              lighter = omega arith;
            }
          ]
        ]

    pub weigh_finds :
        (idx : ℕ) (c : Peer) (o : Option Best)
        → (fail_open || up gate idx) ≡ true
        → get_elem? peers idx ≡ some c
        → full c ≡ false
        → ((b : Best) → o ≡ some b → IsOpen b)
        → Beats c.active c.weight (weigh idx c o)
    unfolding weigh
    weigh_finds idx c none ok at room h = record {
      best = best_of idx c;
      found = rw (room, better);
      is_open = IsOpen-here idx c ok at room;
      lighter = omega arith;
    }
    weigh_finds idx c (some b) ok at room h =
        let lighter = better_of_open idx c b at (h b refl) in
        elim (Bool-cases (better c (some b))) [
          | inl wins ↦ record {
            best = best_of idx c;
            found = ground arith;
            is_open = IsOpen-here idx c ok at room;
            lighter = omega arith;
          }
          | inr loses ↦ record {
            best = b;
            found = ground arith;
            is_open = h b refl;
            lighter = ground arith;
          }
        ]

    pub weigh-AllOpen :
        (idx : ℕ) (c : Peer) (o : Option Best)
        → (fail_open || up gate idx) ≡ true
        → get_elem? peers idx ≡ some c
        → AllOpen o
        → AllOpen (weigh idx c o)
    unfolding AllOpen
    weigh-AllOpen idx c o ok at h b e = elim (Bool-cases (full c)) [
      | inl no_room ↦ h b (sym (weigh_of_full idx c o no_room) ∙ e)
      | inr room ↦
          let found = weigh_finds idx c o ok at room h in
          subst IsOpen (some-injective _ _ (sym found.found ∙ e)) found.is_open
    ]
