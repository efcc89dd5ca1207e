-- ===== src/Upstream/CircuitBreaker/Config.antt =====
-- pkg/upstream/circuitbreaker.go, the configuration: its defaults and the backed-off cooldown.
use parapet.Prelude.{
  ℕ, zero, suc, ◌-◌, ◌*◌, ◌%◌, ◌^◌, ◌≤◌, ◌<◌, ◌||◌, arith, ltb, leb, ◌==◌, if◌then◌else◌,
}
use parapet.Upstream.CircuitBreaker.Word.{cb_max_probes}

-- Durations are nanoseconds. A field that is not positive counts as 0, which means its default.
pub record Config : Type 0 where
  pub failure_threshold : ℕ
  pub success_threshold : ℕ
  pub open_timeout : ℕ
  pub max_open_timeout : ℕ
  pub probe_timeout : ℕ
  pub half_open_max_probes : ℕ

abbrev pub second : ℕ
second = 1_000_000_000

abbrev pub or_default : ℕ → ℕ → ℕ
or_default d n = if n == 0 then d else n

-- `init`, as far as it sets the configuration.
unfoldable pub with_defaults : Config → Config
with_defaults c =
    let open_timeout = or_default (5 * second) c.open_timeout in
    let max_open = or_default (60 * second) c.max_open_timeout in
    let probes = or_default 1 c.half_open_max_probes in
    record {
      failure_threshold = or_default 5 c.failure_threshold;
      success_threshold = or_default 2 c.success_threshold;
      open_timeout = open_timeout;
      max_open_timeout = if ltb max_open open_timeout then open_timeout else max_open;
      probe_timeout = or_default (120 * second) c.probe_timeout;
      half_open_max_probes = if ltb cb_max_probes probes then cb_max_probes else probes;
    }

-- `for i := 1; i < g && d < max; i++ { d *= 2 }` on the bit pattern of an int64, with the rounds
-- that are left; from 2^63 on a pattern stands for a negative number.
unfoldable pub doubled : ℕ → ℕ → ℕ → ℕ
doubled zero max d = d
doubled (suc n) max d =
    let rest = doubled n max (d * 2 % 2 ^ 64) in if leb (2 ^ 63) d || ltb d max then rest else d

-- An int32 trip count that has wrapped to a negative number makes no round.
abbrev pub rounds : ℕ → ℕ
rounds g = if ltb g (2 ^ 31) then g - 1 else 0

unfoldable pub cooldown : Config → ℕ → ℕ
unfolding doubled
cooldown c g =
    let d = doubled (rounds g) c.max_open_timeout c.open_timeout in
    if d == 0 || leb (2 ^ 63) d || ltb c.max_open_timeout d then c.max_open_timeout else d

-- What `init` leaves.
pub record IsConfigured (c : Config) : Type 0 where
  pub failures : 0 < c.failure_threshold
  pub successes : 0 < c.success_threshold
  pub timeout : 0 < c.open_timeout
  pub capped : c.open_timeout ≤ c.max_open_timeout
  pub slots : 0 < c.half_open_max_probes
  pub bounded : c.half_open_max_probes ≤ cb_max_probes

pub with_defaults-IsConfigured : (c : Config) → IsConfigured (with_defaults c)
unfolding with_defaults
with_defaults-IsConfigured c = ground arith
