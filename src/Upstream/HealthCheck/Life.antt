-- ===== src/Upstream/HealthCheck/Life.antt =====
-- pkg/upstream/healthcheck.go: `start`, `Close`, `loop` and `probe`, as steps that interleave at the
-- mutex, at the tests of the context and between `probe` and `observe`.
use parapet.Prelude.{
  ℕ, ◌+◌, ◌-◌, ◌<◌, List, [], Option, none, some, Bool, true, false, ◌||◌, ◌≡◌, map, get_elem?,
  replicate, set, if◌then◌else◌,
}
use parapet.Upstream.State.{ProbeCause, cause_none, cause_error}
use parapet.Upstream.HealthCheck.Config.{Config, initial_gate}
use parapet.Upstream.HealthCheck.Cause.{Answer, healthy, classify_probe_cause}
use parapet.Upstream.HealthCheck.Observe.{ProbeTarget, new, observe}

-- What `probe` meets: a request that cannot be made, or the transport's answer.
pub data Attempt : Type 0 where
  malformed : Attempt
  answered : Answer → Attempt

-- `probe`, up to its call of `observe`; `none` if the prober's own context is done by then.
unfoldable pub probe_verdict : Option (Answer → Bool) → Attempt → Bool → Option (Bool × ProbeCause)
probe_verdict is_healthy attempt true = none
probe_verdict is_healthy malformed false = some (false, cause_error)
probe_verdict is_healthy (answered a) false =
    some (healthy is_healthy a, if healthy is_healthy a then cause_none else classify_probe_cause a)

-- Where one prober's goroutine stands: before the first test of its context, in `probe`, before
-- `observe`, at the `select`, and past `wg.Done`.
pub data Prober : Type 0 where
  entering probing : Prober
  judged : Bool → ProbeCause → Prober
  waiting gone : Prober

-- How far `startOnce` is: not run, past `init`, past the decision under the mutex.
pub data Phase : Type 0 where
  fresh inited started : Phase

pub record Life : Type 0 where
  pub phase : Phase
  pub closed : Bool
  -- the calls of `Close` that have passed its mutex, and those whose wait is over
  pub calls : ℕ
  pub returns : ℕ
  -- `cancel` is set
  pub published : Bool
  -- the probers' context is done
  pub cancelled : Bool
  -- the count of the wait group
  pub wg : ℕ
  pub probers : List Prober
  pub targets : List ProbeTarget

unfoldable pub unstarted : Life
unstarted = record {
  phase = fresh;
  closed = false;
  calls = 0;
  returns = 0;
  published = false;
  cancelled = false;
  wg = 0;
  probers = [];
  targets = [];
}

-- `up.Store(true)`.
abbrev pub lift : ProbeTarget → ProbeTarget
lift t = record t { up = true }

unfoldable pub init : Config → ℕ → Life → Life
unfolding replicate new
init c n s = record s { phase = inited; targets = replicate n (new (initial_gate c)) }

-- The part of `start` under the mutex; `done` says whether the context given to `Start` is done.
unfoldable pub decide : ℕ → Bool → Life → Life
unfolding replicate
decide n done s =
    if s.closed then record s { phase = started; targets = map lift s.targets } else record s {
      phase = started;
      published = true;
      cancelled = done;
      wg = n;
      probers = replicate n entering;
    }

-- `Close`, up to its wait.
unfoldable pub close : Life → Life
close s = record s { closed = true; cancelled = s.cancelled || s.published; calls = s.calls + 1 }

-- A call of `Close` after its `wg.Wait`.
unfoldable pub return_close : Life → Life
return_close s = record s { returns = s.returns + 1 }

abbrev pub move : Life → ℕ → Prober → Life
move s i p = record s { probers = set s.probers i p }

abbrev pub leave : Life → ℕ → Life
leave s i = record s { probers = set s.probers i gone; wg = s.wg - 1 }

unfoldable pub enter : Life → ℕ → Life
enter s i = if s.cancelled then leave s i else move s i probing

unfoldable pub judge : Option (Answer → Bool) → Attempt → Life → ℕ → Life
unfolding probe_verdict
judge is_healthy attempt s i = elim (probe_verdict is_healthy attempt s.cancelled) [
  | none ↦ move s i waiting
  | some (ok, cause) ↦ move s i (judged ok cause)
]

unfoldable pub record_verdict : Config → Bool → ProbeCause → Life → ℕ → ProbeTarget → Life
record_verdict c ok cause s i t = record s {
  probers = set s.probers i waiting;
  targets = set s.targets i (observe c ok cause t);
}

-- The steps, with the hook `IsHealthy` and the number of targets. A `select` with both its cases
-- ready may take either, so that a prober may probe once more after the cancellation.
module _ (c : Config) (is_healthy : Option (Answer → Bool)) (n : ℕ) where
  pub data Step (s : Life) : Life → Type 0 where
    init_step : s.phase ≡ fresh → Step s (init c n s)
    decide_step : (done : Bool) → s.phase ≡ inited → Step s (decide n done s)
    close_step : Step s (close s)
    return_step : s.returns < s.calls → s.wg ≡ 0 → Step s (return_close s)
    cancel_step : s.published ≡ true → Step s (record s { cancelled = true })
    enter_step : (i : ℕ) → get_elem? s.probers i ≡ some entering → Step s (enter s i)
    judge_step :
        (i : ℕ) (attempt : Attempt)
        → get_elem? s.probers i ≡ some probing
        → Step s (judge is_healthy attempt s i)
    observe_step :
        (i : ℕ) (ok : Bool) (cause : ProbeCause) (t : ProbeTarget)
        → get_elem? s.probers i ≡ some (judged ok cause)
        → get_elem? s.targets i ≡ some t
        → Step s (record_verdict c ok cause s i t)
    tick_step : (i : ℕ) → get_elem? s.probers i ≡ some waiting → Step s (move s i probing)
    leave_step :
        (i : ℕ) → get_elem? s.probers i ≡ some waiting → s.cancelled ≡ true → Step s (leave s i)

  pub data Reach (s : Life) : Life → Type 0 where
    here : Reach s s
    next : {t u : Life} → Reach s t → Step t u → Reach s u
