-- ===== src/Upstream/HealthCheck/Crossings.antt =====
-- The gate of a target as a function of the verdicts it has had, and the events as its changes.
use parapet.Prelude.{
  ℕ, suc, ◌+◌, ◌<◌, ◌≤◌, inl, inr, Bool-cases, ◌≡◌, refl, List, [], ◌∷◌, Option, none, some, Bool,
  true, false, leb, arith, length, if◌then◌else◌,
}
use parapet.GoInt64.{sign_bit, less-nonneg, IsNonneg}
use parapet.Upstream.State.{
  StateChange, ProbeCause, state_closed, state_open, probe_down, probe_recover,
}
use parapet.Upstream.HealthCheck.Config.{Config}
use parapet.Upstream.HealthCheck.Observe.{
  ProbeTarget, next64, new, observe_ok, observe_fail, observe,
}

-- A verdict, with the cause that is told of a failure.
pub record Verdict : Type 0 where
  pub ok : Bool
  pub cause : ProbeCause

-- All verdicts of a target, the newest first.
unfoldable pub observe_all : Config → Bool → List Verdict → ProbeTarget
observe_all c up [] = new up
observe_all c up (v ∷ past) = observe c v.ok v.cause (observe_all c up past)

-- How many of the newest verdicts agree.
unfoldable pub successes : List Verdict → ℕ
successes [] = 0
successes (v ∷ past) = let n = successes past in if v.ok then n + 1 else 0

unfoldable pub failures : List Verdict → ℕ
failures [] = 0
failures (v ∷ past) = let n = failures past in if v.ok then 0 else n + 1

-- A target is up after enough successes on end, down after enough failures on end, and else as before.
unfoldable pub gate_of : Config → Bool → List Verdict → Bool
gate_of c up [] = up
gate_of c up (v ∷ past) =
    let before = gate_of c up past in
    if v.ok
    then (if leb c.healthy_thld (successes past + 1) then true else before)
    else if leb c.unhealthy_thld (failures past + 1)
    then false
    else before

pub record IsConfigured (c : Config) : Type 0 where
  pub healthy_pos : 0 < c.healthy_thld
  pub healthy_nonneg : IsNonneg c.healthy_thld
  pub unhealthy_pos : 0 < c.unhealthy_thld
  pub unhealthy_nonneg : IsNonneg c.unhealthy_thld

-- The target's fields, as its verdicts determine them.
pub record IsHistory (c : Config) (up : Bool) (past : List Verdict) (t : ProbeTarget) : Type 0 where
  pub gate : t.up ≡ gate_of c up past
  pub oks : t.ok_run ≡ successes past
  pub fails : t.fail_run ≡ failures past
  pub oks_le : t.ok_run ≤ length past
  pub fails_le : t.fail_run ≤ length past

observe-IsHistory :
    (c : Config) (up : Bool) (past : List Verdict) (v : Verdict) (t : ProbeTarget)
    → IsConfigured c
    → suc (length past) < sign_bit
    → IsHistory c up past t
    → IsHistory c up (v ∷ past) (observe c v.ok v.cause t)
unfolding observe observe_ok observe_fail gate_of successes failures
observe-IsHistory c up past v t k h i =
    let run_ok = less-nonneg (next64 t.ok_run) c.healthy_thld (ground arith) k.healthy_nonneg in
    let run_fail =
      less-nonneg (next64 t.fail_run) c.unhealthy_thld (ground arith) k.unhealthy_nonneg in
    elim (Bool-cases v.ok) [
      | inl e ↦ rw e (ground (arith, run_ok))
      | inr e ↦ rw e (ground (arith, run_fail))
    ]

-- Over fewer than 2 ^ 63 verdicts the runs count what they name, and the target is up exactly when the
-- thresholds of successes and failures on end say so.
pub observe_all-IsHistory :
    (c : Config) (up : Bool) (past : List Verdict)
    → IsConfigured c
    → length past < sign_bit
    → IsHistory c up past (observe_all c up past)
unfolding observe_all gate_of successes failures new
observe_all-IsHistory c up [] k h = ground arith
observe_all-IsHistory c up (v ∷ past) k h =
    observe-IsHistory c up past v (observe_all c up past) k h
      (observe_all-IsHistory c up past k (omega arith))

-- What an event says of the gate: `none` if the target was not in the state that it names.
unfoldable pub follow : StateChange → Bool → Option Bool
follow e up = elim e.reason [
  | probe_down ↦ elim e.from [
    | state_closed ↦ elim e.to [ state_open ↦ if up then some false else none | _ ↦ none ]
    | _ ↦ none
  ]
  | probe_recover ↦ elim e.from [
    | state_open ↦ elim e.to [ state_closed ↦ if up then none else some true | _ ↦ none ]
    | _ ↦ none
  ]
  | _ ↦ none
]

unfoldable pub follow_all : List StateChange → Bool → Option Bool
follow_all [] up = some up
follow_all (e ∷ es) up = elim (follow_all es up) [ none ↦ none | some before ↦ follow e before ]

observe_follows :
    (c : Config) (first ok : Bool) (cause : ProbeCause) (t : ProbeTarget)
    → follow_all t.events first ≡ some t.up
    → follow_all (observe c ok cause t).events first ≡ some (observe c ok cause t).up
unfolding follow_all follow observe observe_ok observe_fail
observe_follows c first true cause t h = ground (arith, h)
observe_follows c first false cause t h = ground (arith, h)

-- The events are the changes of the gate, no more and no less: they alternate between down and
-- recover, and followed from the first gate they lead to the present one.
pub events_follow :
    (c : Config) (up : Bool) (past : List Verdict)
    → follow_all (observe_all c up past).events up ≡ some (observe_all c up past).up
unfolding observe_all new follow_all
events_follow c up [] = refl
events_follow c up (v ∷ past) =
    observe_follows c up v.ok v.cause (observe_all c up past) (events_follow c up past)
