-- ===== src/Upstream/CircuitBreaker/Breaker.antt =====
-- pkg/upstream/circuitbreaker.go, one target's breaker: admission, record and transition. Each
-- method runs here without interference, so that each CAS succeeds at its first try.
use parapet.Prelude.{
  ℕ, zero, suc, ◌+◌, ◌-◌, ◌^◌, List, [], ◌∷◌, Option, none, some, Bool, true, false, not, ◌&&◌,
  ◌||◌, ltb, leb, ◌==◌, if◌then◌else◌,
}
use parapet.Upstream.CircuitBreaker.Word.{
  cb_closed, cb_open, cb_half_open, cb_probe_one, next32, cb_pack, cb_unpack,
}
use parapet.Upstream.CircuitBreaker.Config.{Config, cooldown}
use parapet.Upstream.State.{
  State, state_closed, state_open, state_half_open, Reason, trip, probe, reopen, heal, expire,
  StateChange, cause_none,
}

-- `cbState`. The counters are bit patterns of an int32. `events` holds the calls of `OnStateChange`
-- for this target, newest first.
pub record Breaker : Type 0 where
  pub word : ℕ
  pub opened_until : ℕ
  pub half_open_since : ℕ
  pub generations : ℕ
  pub failures : ℕ
  pub successes : ℕ
  pub events : List StateChange

-- A zero word: generation 0, no probe, CLOSED.
unfoldable pub new : Breaker
new = record {
  word = 0;
  opened_until = 0;
  half_open_since = 0;
  generations = 0;
  failures = 0;
  successes = 0;
  events = [];
}

pub data Admission : Type 0 where
  admit_closed admit_probe : Admission

abbrev pub cb_external : ℕ → State
cb_external s =
    if s == cb_open then state_open else if s == cb_half_open then state_half_open else state_closed

abbrev pub emit : Breaker → State → State → Reason → Breaker
emit b from to reason = record b {
  events = record { from = from; to = to; reason = reason; cause = cause_none } ∷ b.events;
}

-- The satellites of a committed transition, by the state that it enters.
unfoldable pub enter : ℕ → ℕ → Breaker → Breaker
enter next e b = record b {
  failures = 0;
  successes = 0;
  generations = if next == cb_open then e else if next == cb_closed then 0 else b.generations;
  opened_until = if next == cb_closed then 0 else b.opened_until;
}

-- `clock` is the reading of the clock in the call; the deadline, as `UnixNano` asks, is one that an
-- int64 holds.
unfoldable pub transition : Config → ℕ → Breaker → ℕ → ℕ → ℕ → Reason → Breaker × Bool
unfolding enter
transition c clock b gen from next reason =
    let e = next32 b.generations in
    let until = clock + cooldown c e in
    let v = cb_unpack b.word in
    if not (v.gen == gen && v.state == from)
    then (b, false)
    else let published = record b {
      opened_until = if next == cb_open then until else b.opened_until;
      word = cb_pack (next32 gen) 0 next;
    } in
      (emit (enter next e published) (cb_external from) (cb_external next) reason, true)

unfoldable pub release_probe : Breaker → ℕ → Breaker
release_probe b gen =
    let v = cb_unpack b.word in
    if not (v.gen == gen && v.state == cb_half_open) || v.probes == 0
    then b
    else record b { word = b.word - cb_probe_one }

-- One round of `admit`'s loop.
pub data Attempt : Type 0 where
  admitted : ℕ → Admission → Attempt
  refused again : Attempt

unfoldable pub attempt : Config → ℕ → ℕ → Breaker → Breaker × Attempt
unfolding transition
attempt c now clock b =
    let v = cb_unpack b.word in
    if v.state == cb_closed
    then (b, admitted 0 admit_closed)
    else if v.state == cb_open
    then if ltb now b.opened_until
      then (b, refused)
      else (let flipped = record b {
        half_open_since = now;
        word = cb_pack (next32 v.gen) 0 cb_half_open;
      } in
          (emit flipped state_open state_half_open probe, again))
    else if leb c.half_open_max_probes v.probes
    then if ltb c.probe_timeout (now - b.half_open_since)
      then ((transition c clock b v.gen cb_half_open cb_open expire).0, again)
      else (b, refused)
    else (record b { word = b.word + cb_probe_one }, admitted v.gen admit_probe)

-- The loop on fuel; `none` in the second place means that the fuel ran out.
unfoldable pub admit_loop : ℕ → Config → ℕ → ℕ → Breaker → Breaker × Option (Option (ℕ × Admission))
unfolding attempt
admit_loop zero c now clock b = (b, none)
admit_loop (suc fuel) c now clock b =
    let (b', a) = attempt c now clock b in
    elim a [
      | admitted gen adm ↦ (b', some (some (gen, adm)))
      | refused ↦ (b', some none)
      | again ↦ admit_loop fuel c now clock b'
    ]

-- Three rounds: an expired probe re-opens the breaker, whose new cooldown has not run out.
unfoldable pub admit : Config → ℕ → ℕ → Breaker → Breaker × Option (Option (ℕ × Admission))
unfolding admit_loop
admit c now clock b = admit_loop 3 c now clock b

-- An int32 counter, read as an int, has reached a threshold.
abbrev pub reaches : ℕ → ℕ → Bool
reaches n threshold = ltb n (2 ^ 31) && leb threshold n

unfoldable pub record_probe : Config → ℕ → Breaker → ℕ → Bool → Breaker
unfolding transition release_probe
record_probe c clock b gen failed =
    if failed
    then (transition c clock b gen cb_half_open cb_open reopen).0
    else let counted = record b { successes = next32 b.successes } in
      if reaches counted.successes c.success_threshold
      then (transition c clock counted gen cb_half_open cb_closed heal).0
      else release_probe counted gen

unfoldable pub record_closed : Config → ℕ → Breaker → Bool → Breaker
unfolding transition
record_closed c clock b failed =
    if failed
    then (let counted = record b { failures = next32 b.failures } in
        let v = cb_unpack counted.word in
        if reaches counted.failures c.failure_threshold && v.state == cb_closed
        then (transition c clock counted v.gen cb_closed cb_open trip).0
        else counted)
    else record b { failures = 0 }

-- `record`, behind the verdict of `failed`.
unfoldable pub record_outcome : Config → ℕ → Breaker → ℕ → Admission → Bool → Breaker
unfolding record_probe record_closed
record_outcome c clock b gen admit_probe failed = record_probe c clock b gen failed
record_outcome c clock b gen admit_closed failed = record_closed c clock b failed

-- The error of a round-trip, as far as `failed` looks: `errors.Is(err, context.Canceled)`.
pub data TripError : Type 0 where
  canceled other : TripError

-- `failed`, with the hook `IsFailure` on responses of any type.
unfoldable pub failed :
    {R : Type 0} → Option (Option R → Option TripError → Bool) → Option R → Option TripError → Bool
failed (some is_failure) resp err = is_failure resp err
failed none resp none = false
failed none resp (some canceled) = false
failed none resp (some other) = true
