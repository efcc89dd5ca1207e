-- ===== src/Upstream/Ejecting.antt =====
-- pkg/upstream/ejecting.go: a balancer that takes a failing target out for a backed-off cooldown. The
-- methods run here without interference; the race for an ejection is in Race.
use parapet.Prelude.{
  ℕ, suc, ◌+◌, ◌*◌, ◌^◌, ◌<◌, ◌≤◌, List, [], ◌∷◌, Option, none, some, Bool, true, false, not, ◌&&◌,
  ◌||◌, ltb, leb, ◌==◌, if◌then◌else◌, get_elem?, set, length, arith,
}
use parapet.Upstream.State.{state_closed, state_open, eject, recover, StateChange, cause_none}
use parapet.Upstream.Gate.{up}
use parapet.Upstream.RoundRobin.{pick_where}
use parapet.Upstream.CircuitBreaker.Word.{next32}
use parapet.Upstream.CircuitBreaker.Config.{second, or_default, doubled, rounds}
pub mod Health
pub mod Race

-- Durations are nanoseconds. A field that is not positive counts as 0, which means its default.
pub record Config : Type 0 where
  pub max_fails : ℕ
  pub eject_timeout : ℕ
  pub max_eject_timeout : ℕ

-- `init`, as far as it sets the configuration.
unfoldable pub with_defaults : Config → Config
with_defaults c =
    let base = or_default (30 * second) c.eject_timeout in
    let cap = or_default (300 * second) c.max_eject_timeout in
    record {
      max_fails = or_default 3 c.max_fails;
      eject_timeout = base;
      max_eject_timeout = if ltb cap base then base else cap;
    }

-- `ejectionTimeout`; its loop is that of the circuit breaker's cooldown.
unfoldable pub ejection_timeout : Config → ℕ → ℕ
unfolding doubled
ejection_timeout c e =
    let d = doubled (rounds e) c.max_eject_timeout c.eject_timeout in
    if d == 0 || leb (2 ^ 63) d || ltb c.max_eject_timeout d then c.max_eject_timeout else d

-- `ejectTarget`, with the calls of `OnStateChange`, newest first. The counters are bit patterns of an
-- int32.
pub record EjectTarget : Type 0 where
  pub fails : ℕ
  pub ejections : ℕ
  pub ejected_until : ℕ
  pub events : List StateChange

unfoldable pub new : EjectTarget
new = record { fails = 0; ejections = 0; ejected_until = 0; events = [] }

abbrev pub ejected_from : ℕ → StateChange
ejected_from prev = record {
  from = if prev == 0 then state_closed else state_open;
  to = state_open;
  reason = eject;
  cause = cause_none;
}

abbrev pub recovered : StateChange
recovered = record { from = state_open; to = state_closed; reason = recover; cause = cause_none }

-- `eject`, at a reading of the clock; the deadline, as `UnixNano` asks, is one that an int64 holds.
unfoldable pub eject_target : Config → ℕ → EjectTarget → EjectTarget
eject_target c now t =
    let e = next32 t.ejections in
    if ltb now t.ejected_until then record t { fails = 0 } else record {
      fails = 0;
      ejections = e;
      ejected_until = now + ejection_timeout c e;
      events = ejected_from t.ejected_until ∷ t.events;
    }

-- The counter as an int has reached `MaxFails`.
abbrev pub reaches : ℕ → ℕ → Bool
reaches n threshold = ltb n (2 ^ 31) && leb threshold n

-- `record`, behind the verdict of `failed`.
unfoldable pub record_outcome : Config → ℕ → EjectTarget → Bool → EjectTarget
unfolding eject_target
record_outcome c now t true =
    let counted = record t { fails = next32 t.fails } in
    if reaches counted.fails c.max_fails then eject_target c now counted else counted
record_outcome c now t false =
    if not (t.fails == 0) || not (t.ejections == 0) || not (t.ejected_until == 0)
    then record {
      fails = 0;
      ejections = 0;
      ejected_until = 0;
      events = if t.ejected_until == 0 then t.events else recovered ∷ t.events;
    }
    else t

pub record Balancer : Type 0 where
  pub config : Config
  pub cursor : ℕ
  pub targets : List EjectTarget
  pub gate : Option (List Bool)

abbrev pub in_rotation : Option EjectTarget → ℕ → Bool
in_rotation none now = false
in_rotation (some t) now = leb t.ejected_until now

-- What `pick` asks of a target: not ejected, and not held down by the health check.
unfoldable pub selectable : Balancer → ℕ → ℕ → Bool
selectable l now idx = in_rotation (get_elem? l.targets idx) now && up l.gate idx

unfoldable pub pick : ℕ → Balancer → Balancer × ℕ
unfolding selectable
pick now l = (
  record l { cursor = next32 l.cursor },
  pick_where (selectable l now) l.cursor (length l.targets),
)

-- `RoundTrip`: `failed` says of a target whether its round-trip counts as a failure, and `later` is
-- the clock's reading after it. `none` is ErrUnavailable.
unfoldable pub round_trip : (ℕ → Bool) → ℕ → ℕ → Balancer → Balancer × Option ℕ
unfolding pick record_outcome
round_trip failed now later l =
    if length l.targets == 0
    then (l, none)
    else (let (l', idx) = pick now l in
        elim (get_elem? l'.targets idx) [
          | none ↦ (l', none)
          | some t ↦ (
            record l' {
              targets = set l'.targets idx (record_outcome l.config later t (failed idx));
            },
            some idx,
          )
        ])
