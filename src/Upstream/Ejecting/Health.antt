-- ===== src/Upstream/Ejecting/Health.antt =====
-- A target's failures, ejections and recoveries, and the picks of the balancer.
use parapet.Prelude.{
  ℕ, suc, ◌+◌, ◌*◌, ◌^◌, ◌<◌, ◌≤◌, ◌-◌, ◌≡◌, refl, List, [], ◌∷◌, Option, none, some, Bool, true,
  false, length, arith, ◌==◌, if◌then◌else◌,
}
use Prim.Native.Nat.{min}
use parapet.Upstream.State.{State, state_closed, state_open, eject, recover, StateChange}
use parapet.Upstream.RoundRobin.Rotation.{pick_where-lt, pick_where-eligible}
use parapet.Upstream.CircuitBreaker.Word.{next32}
use parapet.Upstream.CircuitBreaker.Config
use parapet.Upstream.CircuitBreaker.Config.{cooldown}
use parapet.Upstream.CircuitBreaker.Backoff.{cooldown-eq-min, cooldown_bounds}
use parapet.Upstream.Ejecting.{
  Config, with_defaults, ejection_timeout, EjectTarget, ejected_from, eject_target, record_outcome,
  Balancer, selectable, pick,
}

-- What `init` leaves.
pub record IsConfigured (c : Config) : Type 0 where
  pub fails : 0 < c.max_fails
  pub timeout : 0 < c.eject_timeout
  pub capped : c.eject_timeout ≤ c.max_eject_timeout

pub with_defaults-IsConfigured : (c : Config) → IsConfigured (with_defaults c)
unfolding with_defaults
with_defaults-IsConfigured c = ground arith

-- The breaker's configuration that backs off in the same way.
abbrev as_breaker : Config → Config.Config
as_breaker c = record {
  failure_threshold = 1;
  success_threshold = 1;
  open_timeout = c.eject_timeout;
  max_open_timeout = c.max_eject_timeout;
  probe_timeout = 1;
  half_open_max_probes = 1;
}

as_breaker-IsConfigured : (c : Config) → IsConfigured c → Config.IsConfigured (as_breaker c)
as_breaker-IsConfigured c h = ground arith

ejection_timeout-eq-cooldown :
    (c : Config) (e : ℕ) → ejection_timeout c e ≡ cooldown (as_breaker c) e
unfolding ejection_timeout cooldown
ejection_timeout-eq-cooldown c e = refl

-- The n-th ejection after the last success lasts for `EjectTimeout` doubled n - 1 times, capped at
-- `MaxEjectTimeout`, on every configuration that `init` leaves and whose cap is at most 2^62.
pub ejection_timeout-eq-min :
    (c : Config) (n : ℕ)
    → IsConfigured c
    → c.max_eject_timeout ≤ 2 ^ 62
    → n < 2 ^ 31 - 1
    → ejection_timeout c (suc n) ≡ min (c.eject_timeout * 2 ^ n) c.max_eject_timeout
ejection_timeout-eq-min c n h m b =
    rw ejection_timeout-eq-cooldown
      (cooldown-eq-min (as_breaker c) n (as_breaker-IsConfigured c h) m b)

pub ejection_timeout_bounds :
    (c : Config) (e : ℕ)
    → IsConfigured c
    → (0 < ejection_timeout c e) × (ejection_timeout c e ≤ c.max_eject_timeout)
ejection_timeout_bounds c e h =
    rw ejection_timeout-eq-cooldown (cooldown_bounds (as_breaker c) e (as_breaker-IsConfigured c h))

-- Failures one after another, at readings of the clock of which the newest comes first.
unfoldable pub fail_all : Config → List ℕ → EjectTarget → EjectTarget
fail_all c [] t = t
fail_all c (now ∷ past) t = record_outcome c now (fail_all c past t) true

fail_all_below :
    (c : Config) (times : List ℕ) (t : EjectTarget)
    → t.fails ≡ 0
    → length times < c.max_fails
    → c.max_fails < 2 ^ 31
    → fail_all c times t ≡ record t { fails = length times }
unfolding fail_all record_outcome
fail_all_below c [] t z h m = ground arith
fail_all_below c (now ∷ past) t z h m = ground (arith, fail_all_below c past t z (omega arith) m)

-- The failure that completes `MaxFails` of them on end ejects a target that is not ejected, for the
-- timeout of its next ejection; those before it only count.
pub fail_all-ejects :
    (c : Config) (now : ℕ) (past : List ℕ) (t : EjectTarget)
    → t.fails ≡ 0
    → suc (length past) ≡ c.max_fails
    → c.max_fails < 2 ^ 31
    → t.ejected_until ≤ now
    → (fail_all c past t ≡ record t { fails = length past })
      × (fail_all c (now ∷ past) t ≡ record {
        fails = 0;
        ejections = next32 t.ejections;
        ejected_until = now + ejection_timeout c (next32 t.ejections);
        events = ejected_from t.ejected_until ∷ t.events;
      })
unfolding fail_all record_outcome eject_target
fail_all-ejects c now past t z h m u =
    let before = fail_all_below c past t z (omega arith) m in (before, rw before (ground arith))

-- The state that an observer knows of a target after an event: `none` if the event does not start
-- from the state before it.
unfoldable pub follow : StateChange → State → Option State
follow e s = elim e.reason [
  | eject ↦ elim e.from [
    | state_closed ↦ elim s [ state_closed ↦ some e.to | _ ↦ none ]
    | state_open ↦ elim s [ state_open ↦ some e.to | _ ↦ none ]
    | _ ↦ none
  ]
  | recover ↦ elim s [ state_open ↦ some e.to | _ ↦ none ]
  | _ ↦ none
]

unfoldable pub follow_all : List StateChange → Option State
follow_all [] = some state_closed
follow_all (e ∷ es) = elim (follow_all es) [ none ↦ none | some s ↦ follow e s ]

abbrev pub state_of : EjectTarget → State
state_of t = if t.ejected_until == 0 then state_closed else state_open

-- Each event starts from the state that the one before it left, and the last one tells whether the
-- target has an ejection that no success has cleared.
pub record_outcome-follows :
    (c : Config) (now : ℕ) (t : EjectTarget) (failed : Bool)
    → IsConfigured c
    → follow_all t.events ≡ some (state_of t)
    → follow_all (record_outcome c now t failed).events
      ≡ some (state_of (record_outcome c now t failed))
unfolding record_outcome eject_target follow_all follow
record_outcome-follows c now t true k h =
    ground (arith, ejection_timeout_bounds c (next32 t.ejections) k)
record_outcome-follows c now t false k h = ground arith

-- `pick` names one of the targets also where all are out, and one in rotation and not held down if
-- there is any, while the cursor is not about to wrap.
pub pick-selectable :
    (now i : ℕ) (l : Balancer)
    → l.cursor + length l.targets ≤ 2 ^ 32
    → i < length l.targets
    → selectable l now i ≡ true
    → ((pick now l).1 < length l.targets) × (selectable l now (pick now l).1 ≡ true)
unfolding pick
pick-selectable now i l w p h = (
  pick_where-lt (selectable l now) l.cursor (length l.targets) (omega arith),
  pick_where-eligible (selectable l now) l.cursor (length l.targets) i w p h,
)
