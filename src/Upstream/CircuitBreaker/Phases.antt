-- ===== src/Upstream/CircuitBreaker/Phases.antt =====
-- The state machine that a breaker promises, without words, generations and CAS loops, and the
-- refinement of `admit`.
use parapet.Prelude.{ℕ, ◌+◌, ◌-◌, ◌≤◌, ◌≡◌, ◌≢◌, Option, none, some, ltb, ◌==◌, if◌then◌else◌}
use parapet.Upstream.CircuitBreaker.Word.{cb_closed, cb_open, cb_half_open, next32, cb_unpack}
use parapet.Upstream.CircuitBreaker.Config.{Config, cooldown}
use parapet.Upstream.CircuitBreaker.Breaker.{Breaker, Admission, admit_closed, admit_probe}

-- The phases of a target. `trips` counts the consecutive OPEN episodes, `successes` the successful
-- probes that count so far.
pub data Phase : Type 0 where
  closed : (failures : ℕ) → Phase
  opened : (until trips successes : ℕ) → Phase
  half_open : (probes since successes trips : ℕ) → Phase

unfoldable pub view : Breaker → Phase
view b =
    let v = cb_unpack b.word in
    if v.state == cb_closed
    then closed b.failures
    else if v.state == cb_open
    then opened b.opened_until b.generations b.successes
    else half_open v.probes b.half_open_since b.successes b.generations

-- What holds of a breaker between two calls: there are three states, the probes stay within their
-- budget, and only a HALF-OPEN target has any.
pub record IsValid (c : Config) (b : Breaker) : Type 0 where
  pub known : (cb_unpack b.word).state ≤ 2
  pub budget : (cb_unpack b.word).probes ≤ c.half_open_max_probes
  pub idle : (cb_unpack b.word).state ≢ cb_half_open → (cb_unpack b.word).probes ≡ 0

unfoldable pub promised : Config → ℕ → ℕ → Phase → Phase × Option Admission
promised c now clock (closed f) = (closed f, some admit_closed)
promised c now clock (opened until trips s) =
    if ltb now until
    then (opened until trips s, none)
    else (half_open 1 now s trips, some admit_probe)
promised c now clock (half_open p since s trips) =
    if ltb p c.half_open_max_probes
    then (half_open (p + 1) since s trips, some admit_probe)
    else if ltb c.probe_timeout (now - since)
    then (opened (clock + cooldown c (next32 trips)) (next32 trips) 0, none)
    else (half_open p since s trips, none)
