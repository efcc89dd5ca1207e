-- ===== src/Upstream/CircuitBreaker/Backoff.antt =====
-- The cooldown in closed form: what the doubling loop computes.
use Prim.Native.Nat.{min}
use native.Mathlib.Nat.{pow-suc}
use parapet.Prelude.{
  ℕ, zero, suc, ◌-◌, ◌*◌, ◌^◌, ◌≤◌, ◌<◌, ◌≡◌, ap, ◌%◌, ◌||◌, arith, ltb, leb, ◌==◌, if◌then◌else◌,
}
use parapet.Upstream.CircuitBreaker.Config.{Config, IsConfigured, doubled, rounds, cooldown}

-- What `cooldown` makes of the loop's result.
abbrev capped : ℕ → ℕ → ℕ
capped d max = if d == 0 || leb (2 ^ 63) d || ltb max d then max else d

pow_pos : (n : ℕ) → 1 ≤ 2 ^ n
pow_pos zero = omega arith
pow_pos (suc n) = omega (arith, pow_pos n, pow-suc 2 n)

le-mul-pow : (d n : ℕ) → d ≤ d * 2 ^ n
le-mul-pow d n = grind (arith, pow_pos n)

capped-doubled :
    (n max d : ℕ)
    → 0 < d
    → d < 2 ^ 63
    → max ≤ 2 ^ 62
    → capped (doubled n max d) max ≡ min (d * 2 ^ n) max
unfolding doubled
capped-doubled zero max d p q m = ground arith
capped-doubled (suc n) max d p q m =
    ground (arith, capped-doubled n max (d * 2 % 2 ^ 64), le-mul-pow d (suc n), double, wide)
  where
    double : d * 2 ^ suc n ≡ d * 2 * 2 ^ n
    double = omega (arith, ap (λ (t : ℕ). d * t) (pow-suc 2 n))

    wide : d < max → d * 2 % 2 ^ 64 ≡ d * 2
    wide h = omega arith

rounds-suc : (n : ℕ) → n < 2 ^ 31 - 1 → rounds (suc n) ≡ n
rounds-suc n h = ground arith

-- The n-th consecutive trip cools down for `OpenTimeout` doubled n - 1 times, capped at
-- `MaxOpenTimeout`, on every configured breaker whose cap stays below 2^62 nanoseconds.
pub cooldown-eq-min :
    (c : Config) (n : ℕ)
    → IsConfigured c
    → c.max_open_timeout ≤ 2 ^ 62
    → n < 2 ^ 31 - 1
    → cooldown c (suc n) ≡ min (c.open_timeout * 2 ^ n) c.max_open_timeout
unfolding cooldown
cooldown-eq-min c n v m h =
    rw (rounds-suc n h)
      (capped-doubled n c.max_open_timeout c.open_timeout v.timeout (omega arith) m)

-- A cooldown of a configured breaker is positive and never longer than the cap, whatever wraps.
pub cooldown_bounds :
    (c : Config) (g : ℕ) → IsConfigured c → (0 < cooldown c g) × (cooldown c g ≤ c.max_open_timeout)
unfolding cooldown
cooldown_bounds c g v = ground arith
