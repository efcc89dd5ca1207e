-- ===== src/Upstream/State.antt =====
-- pkg/upstream/state.go: what a balancer or a health check tells `OnStateChange` of a target, with the
-- label values. The host of an event is left out: each target keeps its own list of events.
use parapet.Prelude.{List, ℕ}
use parapet.GoStrings.{codes}

pub data State : Type 0 where
  state_closed state_open state_half_open : State

pub data Reason : Type 0 where
  trip reopen heal probe expire eject recover probe_down probe_recover : Reason

-- The zero value is `cause_none`.
pub data ProbeCause : Type 0 where
  cause_none cause_timeout cause_refused cause_reset cause_dns cause_tls cause_status cause_error :
      ProbeCause

pub record StateChange : Type 0 where
  pub from : State
  pub to : State
  pub reason : Reason
  pub cause : ProbeCause

-- `ProbeCause.String`.
unfoldable pub cause_string : ProbeCause → List ℕ
cause_string cause_none = codes "none"
cause_string cause_timeout = codes "timeout"
cause_string cause_refused = codes "refused"
cause_string cause_reset = codes "reset"
cause_string cause_dns = codes "dns"
cause_string cause_tls = codes "tls"
cause_string cause_status = codes "status"
cause_string cause_error = codes "error"

-- `Reason.String`.
unfoldable pub reason_string : Reason → List ℕ
reason_string trip = codes "trip"
reason_string reopen = codes "reopen"
reason_string heal = codes "heal"
reason_string probe = codes "probe"
reason_string expire = codes "expire"
reason_string eject = codes "eject"
reason_string recover = codes "recover"
reason_string probe_down = codes "probe_down"
reason_string probe_recover = codes "probe_recover"
