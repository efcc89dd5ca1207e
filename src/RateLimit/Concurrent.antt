-- ===== src/RateLimit/Concurrent.antt =====
-- pkg/ratelimit/concurrent.go. A storage that was never made is the empty one.
pub mod Reach
use parapet.Prelude.{
  ℕ, ◌+◌, ◌-◌, ◌≤◌, List, [], Option, none, some, Bool, true, false, leb, if◌then◌else◌,
}
use parapet.Prelude.Assoc
use parapet.RateLimit.Limiter.{Strategy}

pub record ConcurrentStrategy (K : Type 0) : Type 0 where
  pub storage : List (K × ℕ)
  pub capacity : ℕ

unfoldable pub new : {K : Type 0} → ℕ → ConcurrentStrategy K
new capacity = record { storage = []; capacity = capacity }

module _ {K : Type 0} (dec : Discrete K) where
  -- `storage[key]`, zero when it is absent.
  unfoldable pub running : ConcurrentStrategy K → K → ℕ
  running b key = elim (Assoc.get dec key b.storage) [ none ↦ 0 | some n ↦ n ]

  unfoldable pub take : ConcurrentStrategy K → K → ConcurrentStrategy K × Bool
  unfolding running
  take b key =
      if leb b.capacity (running b key)
      then (b, false)
      else (record b { storage = Assoc.put dec key (running b key + 1) b.storage }, true)

  unfoldable pub put : ConcurrentStrategy K → K → ConcurrentStrategy K
  unfolding running
  put b key =
      if leb (running b key) 0
      then b
      else (let lowered = Assoc.put dec key (running b key - 1) b.storage in
          record b {
            storage = if leb (running b key - 1) 0 then Assoc.delete dec key lowered else lowered;
          })

  unfoldable pub after : ConcurrentStrategy K → K → ℕ
  after b key = 0

  abbrev pub strategy : Strategy (ConcurrentStrategy K) K
  strategy = record { take = take; put = put; after = after }
