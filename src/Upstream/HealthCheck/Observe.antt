-- ===== src/Upstream/HealthCheck/Observe.antt =====
-- pkg/upstream/healthcheck.go, `observe`: the verdicts of one target's probes, one after another.
use parapet.Prelude.{ℕ, ◌+◌, ◌%◌, List, [], ◌∷◌, Bool, true, false, not, ◌&&◌, if◌then◌else◌}
use parapet.GoInt64.{less, modulus}
use parapet.Upstream.State.{
  state_closed, state_open, probe_down, probe_recover, StateChange, ProbeCause, cause_none,
}
use parapet.Upstream.HealthCheck.Config.{Config}

-- `probeTarget`, with the calls of `OnStateChange`, newest first. The runs are int64 words.
pub record ProbeTarget : Type 0 where
  pub up : Bool
  pub ok_run : ℕ
  pub fail_run : ℕ
  pub events : List StateChange

abbrev pub next64 : ℕ → ℕ
next64 n = (n + 1) % modulus

-- As `init` makes it.
unfoldable pub new : Bool → ProbeTarget
new up = record { up = up; ok_run = 0; fail_run = 0; events = [] }

abbrev pub recovered : StateChange
recovered = record {
  from = state_open;
  to = state_closed;
  reason = probe_recover;
  cause = cause_none;
}

abbrev pub went_down : ProbeCause → StateChange
went_down cause = record {
  from = state_closed;
  to = state_open;
  reason = probe_down;
  cause = cause;
}

unfoldable pub observe_ok : Config → ProbeTarget → ProbeTarget
observe_ok c t =
    let run = next64 t.ok_run in
    if not (less run c.healthy_thld) && not t.up
    then record { up = true; ok_run = run; fail_run = 0; events = recovered ∷ t.events }
    else record { up = t.up; ok_run = run; fail_run = 0; events = t.events }

unfoldable pub observe_fail : Config → ProbeCause → ProbeTarget → ProbeTarget
observe_fail c cause t =
    let run = next64 t.fail_run in
    if not (less run c.unhealthy_thld) && t.up
    then record { up = false; ok_run = 0; fail_run = run; events = went_down cause ∷ t.events }
    else record { up = t.up; ok_run = 0; fail_run = run; events = t.events }

unfoldable pub observe : Config → Bool → ProbeCause → ProbeTarget → ProbeTarget
unfolding observe_ok observe_fail
observe c true cause t = observe_ok c t
observe c false cause t = observe_fail c cause t
