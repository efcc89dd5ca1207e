-- ===== src/Upstream/RoundRobin.antt =====
-- pkg/upstream/loadbalancer.go: the round-robin balancer, and the weight of a target.
use parapet.Prelude.{ℕ, zero, suc, ◌+◌, ◌%◌, List, Option, none, some, Bool, ◌==◌, if◌then◌else◌}
use parapet.GoInt64.{less}
use parapet.Upstream.Gate.{up, index_at}
use parapet.Upstream.CircuitBreaker.Word.{next32}
pub mod Rotation

-- `effectiveWeight`: the field `Weight` is an int64 word.
unfoldable pub effective_weight : ℕ → ℕ
effective_weight w = if less 0 w then w else 1

-- The scan of `RoundTrip`, with the rounds that are left.
unfoldable pub first_from : (ℕ → Bool) → ℕ → ℕ → ℕ → ℕ → Option ℕ
first_from eligible zero start k n = none
first_from eligible (suc rounds) start k n =
    let rest = first_from eligible rounds start (k + 1) n in
    let idx = index_at start k n in if eligible idx then some idx else rest

-- The scan with its fail-open default.
unfoldable pub pick_where : (ℕ → Bool) → ℕ → ℕ → ℕ
unfolding first_from
pick_where eligible start n = elim (first_from eligible n start 0 n) [
  | none ↦ start % n
  | some idx ↦ idx
]

pub record RoundRobin : Type 0 where
  pub cursor : ℕ
  pub gate : Option (List Bool)

-- `RoundTrip` over n targets, up to the round-trip: the new state, and the target, or `none` for
-- ErrUnavailable.
unfoldable pub choose : ℕ → RoundRobin → RoundRobin × Option ℕ
unfolding pick_where
choose n l =
    if n == 0
    then (l, none)
    else (record l { cursor = next32 l.cursor }, some (pick_where (up l.gate) l.cursor n))
