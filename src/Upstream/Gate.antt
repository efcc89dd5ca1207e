-- ===== src/Upstream/Gate.antt =====
-- The gate of the active health check as every balancer of pkg/upstream reads it (`setHealthGate` and
-- `up`), and the round-robin index of `pick`.
use parapet.Prelude.{ℕ, ◌+◌, ◌%◌, ◌^◌, List, Option, none, some, Bool, true, get_elem?}

-- `none` while no health check is installed. An index past the gate counts as up.
unfoldable pub up : Option (List Bool) → ℕ → Bool
up none i = true
up (some gate) i = elim (get_elem? gate i) [ none ↦ true | some verdict ↦ verdict ]

-- Both `start` and `k` are uint32, and so is their sum.
abbrev pub index_at : ℕ → ℕ → ℕ → ℕ
index_at start k n = (start + k) % 2 ^ 32 % n
