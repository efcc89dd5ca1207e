-- ===== src/Upstream/HealthCheck/Cause.antt =====
-- pkg/upstream/healthcheck.go, `healthy` and `classifyProbeCause`.
use parapet.Prelude.{
  ℕ, Option, none, some, Bool, false, ◌&&◌, ◌||◌, ◌≡◌, ◌↔◌, true, arith, if◌then◌else◌,
}
use parapet.GoInt64.{less}
use parapet.Upstream.State.{
  ProbeCause, cause_timeout, cause_refused, cause_reset, cause_dns, cause_tls, cause_status,
  cause_error,
}

-- What `errors.Is` and `errors.As` answer for a transport's error, and `Timeout()` of the net.Error
-- in its chain.
pub record ProbeError : Type 0 where
  pub dns : Bool
  pub deadline : Bool
  pub cert : Bool
  pub tls_record : Bool
  pub refused : Bool
  pub reset : Bool
  pub eof : Bool
  pub unexpected_eof : Bool
  pub net_error : Bool
  pub net_timeout : Bool

-- A transport's answer: the status of the response if there is one, and the error if there is one.
pub record Answer : Type 0 where
  pub status : Option ℕ
  pub error : Option ProbeError

-- `healthy` without the field `IsHealthy`; a status is an int64 word.
unfoldable pub answered_below_400 : Answer → Bool
answered_below_400 a = elim a.error [
  | some e ↦ false
  | none ↦ elim a.status [ none ↦ false | some status ↦ less status 400 ]
]

-- The first argument is `IsHealthy`, `none` if it is nil.
unfoldable pub healthy : Option (Answer → Bool) → Answer → Bool
unfolding answered_below_400
healthy none a = answered_below_400 a
healthy (some is_healthy) a = is_healthy a

-- The rungs below the missing error, in their order.
unfoldable pub classify_error : ProbeError → ProbeCause
classify_error e =
    if e.dns
    then cause_dns
    else if e.deadline
    then cause_timeout
    else if e.cert || e.tls_record
    then cause_tls
    else if e.refused
    then cause_refused
    else if e.reset || e.eof || e.unexpected_eof
    then cause_reset
    else if e.net_error && e.net_timeout
    then cause_timeout
    else cause_error

unfoldable pub classify_probe_cause : Answer → ProbeCause
unfolding classify_error
classify_probe_cause a = elim a.error [ none ↦ cause_status | some e ↦ classify_error e ]

-- A failed name resolution is labelled as such even where it timed out, and the label of a timeout
-- means a deadline that is not the resolver's, or a net.Error that nothing above it explains.
pub classify_dns_or_timeout :
    (e : ProbeError)
    → ((classify_error e ≡ cause_dns) ↔ (e.dns ≡ true))
      × (classify_error e ≡ cause_timeout
          → (e.dns ≡ false) × ((e.deadline || e.net_timeout) ≡ true))
unfolding classify_error
classify_dns_or_timeout e = ground arith
