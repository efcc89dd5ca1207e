-- ===== src/Cache/Stale/Windows.antt =====
-- When a stored entry may be served.
use parapet.Prelude.{ℕ, ◌≤◌, ◌≡◌, Option, not, ◌||◌, ltb, leb, arith}
use parapet.Cache.Storage.{Meta}
use parapet.Cache.Stale.{
  FreshState, expired, fresh, stale_revalidate, stale_if_error, by_time, invalidated, classify,
  serveable_until,
}

-- The states in the order in which an entry goes through them.
abbrev pub age_rank : FreshState → ℕ
age_rank fresh = 0
age_rank stale_revalidate = 1
age_rank stale_if_error = 2
age_rank expired = 3

module _ (hook : Option (Meta → ℕ)) (m : Meta) where
  -- An entry may be served exactly while it is not invalidated and either fresh or before the end
  -- of its longer stale window.
  pub classify_serves :
      (now : ℕ)
      → leb 3 (age_rank (classify hook m now))
        ≡ (invalidated hook m || not (leb now m.fresh_until || ltb now (serveable_until m)))
  unfolding classify by_time serveable_until
  classify_serves now = ground arith

  -- As time goes on an entry only gets older: it never becomes fresh again, nor servable.
  pub classify_ages :
      (now later : ℕ)
      → now ≤ later
      → age_rank (classify hook m now) ≤ age_rank (classify hook m later)
  unfolding classify by_time
  classify_ages now later h = ground arith
