-- ===== src/RateLimit/LeakyBucket/After.antt =====
-- What `After` answers a request that is refused.
use parapet.Prelude.{ℕ, ◌+◌, ◌<◌, ◌≡◌, arith, inl, inr, Option-cases}
use parapet.Prelude.Assoc
use parapet.RateLimit.LeakyBucket.{LeakyBucket, refused, granted, admit, item_at, take, after}

module _ {K : Type 0} (dec : Discrete K) where
  -- A request that is refused is told to wait, and if it comes back after that wait, with the item
  -- as it was, it is granted at once.
  pub take-after_granted :
      (b : LeakyBucket K) (now : ℕ) (key : K)
      → (take dec b now key).1 ≡ refused
      → (0 < after dec b now key) × ((take dec b (now + after dec b now key) key).1 ≡ granted)
  unfolding take admit item_at after
  take-after_granted b now key e = elim (Option-cases (Assoc.get dec key b.storage)) [
    | inl none_yet ↦ absurd (ground arith)
    | inr (t, found) ↦ elim (Option-cases t.last) [
      | inl zero_time ↦ absurd (ground arith)
      | inr (l, last) ↦ (ground arith, ground arith)
    ]
  ]
