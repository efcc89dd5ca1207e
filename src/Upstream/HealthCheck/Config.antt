-- ===== src/Upstream/HealthCheck/Config.antt =====
-- pkg/upstream/healthcheck.go, the settings that `init` completes.
use parapet.Prelude.{ℕ, ◌*◌, List, [], ◌∷◌, Bool, not, ◌==◌, if◌then◌else◌}
use parapet.GoStrings.{codes}
use parapet.GoInt64.{less, second}

-- Durations and thresholds are int64 words, texts are bytes.
pub record Config : Type 0 where
  pub path : List ℕ
  pub method : List ℕ
  pub scheme : List ℕ
  pub interval : ℕ
  pub timeout : ℕ
  pub healthy_thld : ℕ
  pub unhealthy_thld : ℕ
  pub start_unhealthy : Bool

abbrev pub text_or : List ℕ → List ℕ → List ℕ
text_or d [] = d
text_or d (c ∷ cs) = c ∷ cs

abbrev pub positive_or : ℕ → ℕ → ℕ
positive_or d n = if less 0 n then n else d

-- `a.Path[0] != '/'`, once the path is not empty.
unfoldable pub rooted : List ℕ → List ℕ
rooted [] = codes "/"
rooted (c ∷ cs) = if c == b'/' then c ∷ cs else b'/' ∷ c ∷ cs

-- `init`, as far as it sets the configuration.
unfoldable pub with_defaults : Config → Config
unfolding rooted
with_defaults c = record {
  path = rooted (text_or (codes "/") c.path);
  method = text_or (codes "GET") c.method;
  scheme = text_or (codes "http") c.scheme;
  interval = positive_or (10 * second) c.interval;
  timeout = positive_or (5 * second) c.timeout;
  healthy_thld = positive_or 1 c.healthy_thld;
  unhealthy_thld = positive_or 3 c.unhealthy_thld;
  start_unhealthy = c.start_unhealthy;
}

-- The gate's first value for each target.
abbrev pub initial_gate : Config → Bool
initial_gate c = not c.start_unhealthy
