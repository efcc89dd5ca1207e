-- ===== src/Tests/CircuitBreaker.antt =====
-- pkg/upstream/circuitbreaker.go at small inputs: three failures trip a target, one probe at a time,
-- two successes heal it.
use parapet.Prelude.{if◌then◌else◌, ◌==◌, ℕ, ◌≡◌, ◌≢◌, refl, [], ◌∷◌, none, some, false, arith}
use parapet.Upstream.CircuitBreaker.Word.{next32, cb_pack, cb_unpack}
use parapet.Upstream.CircuitBreaker.Config.{
  Config, with_defaults, IsConfigured, with_defaults-IsConfigured,
}
use parapet.Upstream.CircuitBreaker.Breaker.{Breaker, admit, admit_probe, record_outcome}
use parapet.Upstream.CircuitBreaker.Phases.{view, IsValid, closed, half_open}
use parapet.Upstream.CircuitBreaker.Refine.{Keeps, admit-Keeps}
use parapet.Upstream.CircuitBreaker.Records.{recorded, record_outcome-Keeps}
use parapet.Upstream.CircuitBreaker.Stale.{stale_success_heals}
use parapet.Upstream.Gate.{up}
use parapet.Upstream.CircuitBreaker.Balancer.{Balancer, pick, Trip, returns}
use parapet.Upstream.CircuitBreaker.Shedding.{IsCooling, pick_finds, pick_wraps}

abbrev cfg : Config
cfg = record {
  failure_threshold = 3;
  success_threshold = 2;
  open_timeout = 10;
  max_open_timeout = 60;
  probe_timeout = 100;
  half_open_max_probes = 1;
}

cfg-IsConfigured : IsConfigured cfg
cfg-IsConfigured = record {
  failures = omega arith;
  successes = omega arith;
  timeout = omega arith;
  capped = omega arith;
  slots = omega arith;
  bounded = omega arith;
}

-- OPEN until 30 in generation 4, after the first trip.
abbrev tripped : Breaker
tripped = record {
  word = 67108865;
  opened_until = 30;
  half_open_since = 0;
  generations = 1;
  failures = 0;
  successes = 0;
  events = [];
}

-- HALF-OPEN in generation 5, with a probe out.
abbrev probing : Breaker
probing = record tripped { word = 83886086; half_open_since = 30 }

abbrev healthy : Breaker
healthy = record {
  word = 0;
  opened_until = 0;
  half_open_since = 0;
  generations = 0;
  failures = 0;
  successes = 0;
  events = [];
}

tripped-IsValid : IsValid cfg tripped
unfolding cb_unpack
tripped-IsValid = record { known = omega arith; budget = omega arith; idle = λ h. refl }

probing-IsValid : IsValid cfg probing
unfolding cb_unpack
probing-IsValid = record { known = omega arith; budget = omega arith; idle = λ h. absurd (h refl) }

healthy-IsValid : IsValid cfg healthy
unfolding cb_unpack
healthy-IsValid = record { known = omega arith; budget = omega arith; idle = λ h. refl }

healthy_closed : view healthy ≡ closed 0
unfolding view cb_unpack
healthy_closed = refl

probing_half_open : view probing ≡ half_open 1 30 0 1
unfolding view cb_unpack
probing_half_open = refl

cools_down : (admit cfg 29 29 tripped).1 ≡ some none
unfolding admit cb_unpack
cools_down = refl

probes_after : view (admit cfg 30 31 tripped).0 ≡ half_open 1 30 0 1
unfolding admit cb_unpack view cb_pack
probes_after = refl

admit-Keeps_example : Keeps cfg 30 31 tripped (admit cfg 30 31 tripped)
admit-Keeps_example = admit-Keeps cfg 30 31 tripped cfg-IsConfigured tripped-IsValid (omega arith)

record_outcome-Keeps_example :
    let b = record_outcome cfg 40 probing 5 admit_probe false in
    let before = cb_unpack probing.word in
    let after = cb_unpack b.word in
    IsValid cfg b
    × (view b ≡ recorded cfg 40 probing probing-IsValid 5 admit_probe false (view probing))
    × (after.gen ≡ (if after.state == before.state then before.gen else next32 before.gen))
record_outcome-Keeps_example =
    record_outcome-Keeps cfg 40 probing probing-IsValid 5 admit_probe false

stale_success_heals_example :
    let gen = (cb_unpack probing.word).gen in
    (view (
        record_outcome cfg 41
          (record_outcome cfg 40 probing 3 admit_probe false)
          gen
          admit_probe
          false)
      ≡ closed 0)
    × (view (record_outcome cfg 41 probing gen admit_probe false) ≡ half_open 0 30 1 1)
stale_success_heals_example =
    stale_success_heals cfg 40 41 probing 3 1 30 0 1 probing-IsValid probing_half_open
      (unfold cb_unpack in omega arith) refl (omega arith)

with_defaults-IsConfigured_example : IsConfigured (with_defaults cfg)
with_defaults-IsConfigured_example = with_defaults-IsConfigured cfg

-- Three targets, of which the first two cool down.
abbrev three : Balancer
three = record {
  config = cfg;
  cursor = 0;
  breakers = tripped ∷ tripped ∷ healthy ∷ [];
  gate = none;
}

abbrev wrapping : Balancer
wrapping = record three { cursor = 4294967295 }

abbrev transport : ℕ → Trip
transport i = returns false

tripped-IsCooling : IsCooling 20 tripped
unfolding cb_unpack
tripped-IsCooling = (refl, omega arith)

pick_finds_example : (pick 20 20 three).1 ≢ none
pick_finds_example =
    pick_finds 20 20 2 three healthy (omega arith) (omega arith) (unfold up in refl) refl
      (unfold cb_unpack in refl)

pick_wraps_example : (pick 20 20 wrapping).1 ≡ none
pick_wraps_example =
    pick_wraps 20 20 wrapping tripped tripped healthy refl refl tripped-IsCooling tripped-IsCooling
