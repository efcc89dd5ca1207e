-- ===== src/Tests/HealthCheck.antt =====
-- pkg/upstream/healthcheck.go at small inputs: two failures take a target down, one success admits it.
use parapet.Prelude.{◌*◌, ◌<◌, ◌≡◌, ◌≢◌, refl, List, [], ◌∷◌, none, some, true, false, All, arith}
use parapet.GoStrings.{codes}
use parapet.GoInt64.{second, less}
use parapet.Upstream.State.{ProbeCause, cause_none, cause_timeout, cause_dns}
use parapet.Upstream.HealthCheck.Config.{Config, with_defaults}
use parapet.Upstream.HealthCheck.Cause.{ProbeError, healthy, classify_probe_cause}
use parapet.Upstream.HealthCheck.Observe.{recovered, went_down, new, observe}
use parapet.Upstream.HealthCheck.Crossings.{
  Verdict, observe_all, IsConfigured, IsHistory, observe_all-IsHistory, follow_all, events_follow,
}
use parapet.Upstream.HealthCheck.Life.{
  Life, unstarted, init, decide, close, started, Reach, here, next, init_step, decide_step,
  close_step, return_step, return_close,
}
use parapet.Upstream.HealthCheck.Sound.{IsUp}
use parapet.Upstream.HealthCheck.Closing.{close_final}

abbrev cfg : Config
cfg = record {
  path = codes "/health";
  method = codes "GET";
  scheme = codes "http";
  interval = 10 * second;
  timeout = 5 * second;
  healthy_thld = 1;
  unhealthy_thld = 2;
  start_unhealthy = true;
}

cfg-IsConfigured : IsConfigured cfg
cfg-IsConfigured = record {
  healthy_pos = omega arith;
  healthy_nonneg = omega arith;
  unhealthy_pos = omega arith;
  unhealthy_nonneg = omega arith;
}

abbrev good : Verdict
good = record { ok = true; cause = cause_none }

abbrev bad : ProbeCause → Verdict
bad cause = record { ok = false; cause = cause }

-- Newest first: up for a start, one failure, and a second one that takes the target down.
abbrev outage : List Verdict
outage = bad cause_dns ∷ bad cause_timeout ∷ good ∷ []

outage_events : (observe_all cfg true outage).events ≡ went_down cause_dns ∷ []
unfolding observe_all new observe less
outage_events = refl

cold_start : (observe_all cfg false outage).events ≡ went_down cause_dns ∷ recovered ∷ []
unfolding observe_all new observe less
cold_start = refl

no_slash :
    (with_defaults (record cfg { path = codes "health"; interval = 0 })).path ≡ codes "/health"
unfolding with_defaults
no_slash = refl

abbrev lookup_timeout : ProbeError
lookup_timeout = record {
  dns = true;
  deadline = true;
  cert = false;
  tls_record = false;
  refused = false;
  reset = false;
  eof = false;
  unexpected_eof = false;
  net_error = true;
  net_timeout = true;
}

lookup_timeout_cause :
    classify_probe_cause (record { status = none; error = some lookup_timeout }) ≡ cause_dns
unfolding classify_probe_cause
lookup_timeout_cause = refl

not_found : healthy none (record { status = some 404; error = none }) ≡ false
unfolding healthy less
not_found = refl

observe_all-IsHistory_example : IsHistory cfg true outage (observe_all cfg true outage)
observe_all-IsHistory_example = observe_all-IsHistory cfg true outage cfg-IsConfigured (omega arith)

events_follow_example :
    follow_all (observe_all cfg false outage).events false ≡ some (observe_all cfg false outage).up
events_follow_example = events_follow cfg false outage

-- A call of `Close` is over before the first request, on a check that starts with its targets down.
abbrev ready : Life
ready = init cfg 2 (return_close (close unstarted))

abbrev shut : Life
shut = decide 2 false ready

ready_reached : Reach cfg none 2 unstarted ready
unfolding init decide close return_close unstarted
ready_reached = next (next (next here close_step) (return_step (omega arith) refl)) (init_step refl)

shut_reached : Reach cfg none 2 ready shut
unfolding init decide close return_close unstarted
shut_reached = next here (decide_step false refl)

shut_started : (shut.phase ≡ started) × (shut.probers ≡ [])
unfolding init decide close return_close unstarted
shut_started = (refl, refl)

close_final_example :
    (0 < ready.returns → ready.phase ≡ started → shut.targets ≡ ready.targets)
    × (0 < ready.calls
        → ready.phase ≢ started
        → shut.phase ≡ started
        → (shut.probers ≡ []) × All IsUp shut.targets)
close_final_example = close_final cfg none 2 ready_reached shut_reached
