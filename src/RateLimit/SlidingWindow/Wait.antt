-- ===== src/RateLimit/SlidingWindow/Wait.antt =====
-- What `After` answers beside `Take`.
use parapet.Prelude.{
  ℕ, ◌+◌, ◌-◌, ◌*◌, ◌/◌, ◌<◌, ◌≡◌, some, true, false, arith, Bool-cases, inl, inr,
}
use parapet.Prelude.Assoc
use parapet.GoFloat64.{Float64, IsRounded}
use parapet.RateLimit.SlidingWindow.{
  SlidingItem, SlidingWindow, size, roll, item_at, take, take_by, over, weighted_count, after_at,
  after,
}

boundary_ahead : (now width : ℕ) → 0 < width → 0 < (now / width + 1) * width - now
boundary_ahead now width pos = grind arith

module _ {K : Type 0} (dec : Discrete K) {F : Type 0} (fl : Float64 F) (rounds : IsRounded fl) where
  -- No wait is answered only where the comparison of `Take` lets the request in.
  after_at-over :
      (max prev curr width now : ℕ)
      → 0 < width
      → after_at fl max prev curr width now ≡ 0
      → over fl prev curr now width max ≡ false
  unfolding after_at over
  after_at-over max prev curr width now pos none_left =
      let one_more = fl.add (weighted_count fl prev curr now width) (fl.of_int 1) in
      elim (Bool-cases (fl.le one_more (fl.of_int max))) [
        | inl fits ↦ rounds.less_of_le one_more (fl.of_int max) fits
        | inr blocked ↦ absurd (ground (arith, boundary_ahead now width pos))
      ]

  -- If `After` answers 0 for a key that is known, a `Take` at the same reading of the clock is granted.
  pub after-take :
      (b : SlidingWindow K) (now : ℕ) (key : K) (t : SlidingItem)
      → Assoc.get dec key b.storage ≡ some t
      → after dec fl b now key ≡ 0
      → (take dec fl b now key).1 ≡ true
  unfolding after take_by item_at size
  after-take b now key t known none_left = ground (
    arith,
    known,
    none_left,
    after_at-over b.max (roll (now / size b) t).prev (roll (now / size b) t).curr (size b) now,
  )
