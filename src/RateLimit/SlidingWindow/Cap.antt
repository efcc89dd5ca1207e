-- ===== src/RateLimit/SlidingWindow/Cap.antt =====
-- What a window grants.
use parapet.Prelude.{
  ℕ, suc, ◌+◌, ◌-◌, ◌/◌, ◌%◌, ◌<◌, ◌≤◌, ◌≡◌, ◌≢◌, ◌⊎◌, ◌^◌, ap, sym, subst, ◌∙◌, List, [], ◌∷◌,
  true, false, All, arith, Bool-cases, inl, inr, if◌then◌else◌, not, ite,
}
use parapet.GoFloat64.{Float64, IsRounded}
use parapet.RateLimit.SlidingWindow.{
  SlidingItem, SlidingWindow, size, roll, item_at, take, over, weighted_count,
}
use parapet.RateLimit.SlidingWindow.Sweep.{item_at-some, item_at-eq}
use parapet.RateLimit.SlidingWindow.Hidden.{
  refuses, counted, take-here, take-elsewhere, take-grants, take-settings, take-size,
}

module _ {K : Type 0} (dec : Discrete K) {F : Type 0} (fl : Float64 F) (rounds : IsRounded fl) where
  mod_le : (n m : ℕ) → 0 < m → n % m ≤ m
  mod_le n m pos = grind arith

  -- A key whose current window is full is refused.
  full :
      (prev curr now width max : ℕ)
      → 0 < width
      → max < 2 ^ 53
      → max ≤ curr
      → over fl prev curr now width max ≡ true
  unfolding over weighted_count
  full prev curr now width max pos small at_max =
      let elapsed = fl.div (fl.of_int (now % width)) (fl.of_int width) in
      let fraction = rounds.div_le_one (now % width) width (mod_le now width pos) pos in
      let faded =
        rounds.mul_nonneg (fl.sub (fl.of_int 1) elapsed) prev 1
          (rounds.sub_nonneg elapsed 1 fraction)
          (rounds.sub_le elapsed 1 (rounds.div_nonneg (now % width) width pos)) in
      let count = weighted_count fl prev curr now width in
      let blend : fl.le (fl.of_int curr) count ≡ true =
        rounds.add_nonneg (fl.mul (fl.of_int prev) (fl.sub (fl.of_int 1) elapsed)) curr faded in
      let enough : fl.le (fl.of_int max) count ≡ true =
        rounds.le_trans (fl.of_int max) (fl.of_int curr) count (rounds.of_int_le max curr at_max)
          blend in
      let beyond : fl.less (fl.of_int max) (fl.add (fl.of_int max) (fl.of_int 1)) ≡ true =
        subst (λ (x : F). fl.less (fl.of_int max) x ≡ true)
          (sym (rounds.add_exact max 1 (omega arith)))
          (rounds.of_int_less max (max + 1) (omega arith) (omega arith)) in
      rounds.less_le (fl.of_int max) (fl.add (fl.of_int max) (fl.of_int 1))
        (fl.add count (fl.of_int 1)) beyond (rounds.add_le (fl.of_int max) count 1 enough)

  size_pos : (b : SlidingWindow K) → 0 < size b
  unfolding size
  size_pos b = ground arith

  -- The calls of a key that are granted, among calls one after the other.
  unfoldable pub granted : K → SlidingWindow K → List (ℕ × K) → ℕ
  granted k b [] = 0
  granted k b ((now, key) ∷ calls) =
      let rest = granted k (take dec fl b now key).0 calls in
      if (take dec fl b now key).1 then ite (dec key k) (suc rest) rest else rest

  abbrev count_at : SlidingWindow K → ℕ → K → ℕ
  count_at b w k = (item_at dec b w k).curr

  roll-counted : (w : ℕ) (t : SlidingItem) → t.window ≡ w → (roll w t).curr ≡ t.curr
  unfolding roll
  roll-counted w t e = ground arith

  item_at-window : (b : SlidingWindow K) (w : ℕ) (k : K) → (item_at dec b w k).window ≡ w
  unfolding item_at roll
  item_at-window b w k = ground arith

  counted-window :
      (b : SlidingWindow K) (now : ℕ) (t : SlidingItem)
      → (counted dec (over fl) b now t).window ≡ t.window
  counted-window b now t = elim (Bool-cases (refuses dec (over fl) b now t)) [
    | inl no_room ↦ ground arith
    | inr room ↦ ground arith
  ]

  count-here :
      (b : SlidingWindow K) (now w : ℕ) (k : K)
      → now / size b ≡ w
      → count_at (take dec fl b now k).0 w k
        ≡ (counted dec (over fl) b now (item_at dec b w k)).curr
  count-here b now w k e =
      let x = counted dec (over fl) b now (item_at dec b (now / size b) k) in
      let window : x.window ≡ w =
        counted-window b now (item_at dec b (now / size b) k)
        ∙ item_at-window b (now / size b) k
        ∙ e in
      ap (λ (t : SlidingItem). t.curr)
        (item_at-some dec (take dec fl b now k).0 w k x (take-here dec (over fl) b now k))
      ∙ roll-counted w x window
      ∙ ap (λ (v : ℕ). (counted dec (over fl) b now (item_at dec b v k)).curr) e

  count-elsewhere :
      (b : SlidingWindow K) (now w : ℕ) (key k : K)
      → key ≢ k
      → count_at (take dec fl b now key).0 w k ≡ count_at b w k
  count-elsewhere b now w key k other =
      ap (λ (t : SlidingItem). t.curr)
        (item_at-eq dec (take dec fl b now key).0 b w k
          (take-elsewhere dec (over fl) b now key k other))

  -- A grant takes one of what is left.
  grant_left :
      (b : SlidingWindow K) (now w : ℕ) (k : K)
      → now / size b ≡ w
      → b.max < 2 ^ 53
      → (((take dec fl b now k).1 ≡ false)
          × (count_at (take dec fl b now k).0 w k ≡ count_at b w k))
        ⊎ (((take dec fl b now k).1 ≡ true)
            × (count_at (take dec fl b now k).0 w k ≡ count_at b w k + 1)
            × (count_at b w k < b.max))
  grant_left b now w k e small =
      let t = item_at dec b w k in
      let grants : (take dec fl b now k).1 ≡ not (refuses dec (over fl) b now t) =
        take-grants dec (over fl) b now k
        ∙ ap (λ (v : ℕ). not (refuses dec (over fl) b now (item_at dec b v k))) e in
      let here = count-here b now w k e in
      elim (Bool-cases (refuses dec (over fl) b now t)) [
        | inl no_room ↦ inl (ground (arith, grants), ground (arith, here))
        | inr room ↦ inr (
          ground (arith, grants),
          ground (arith, here),
          ground (arith, full t.prev t.curr now (size b) b.max (size_pos b) small),
        )
      ]

  -- With float64 arithmetic that rounds as IEEE 754 says, and for maxima below 2 ^ 53: in one window a
  -- key is granted no more calls than the window has left for it, whatever the previous window counted
  -- and whatever the other keys do.
  pub granted_le :
      (k : K) (w : ℕ) (b : SlidingWindow K) (calls : List (ℕ × K))
      → b.max < 2 ^ 53
      → All (λ call. call.0 / size b ≡ w) calls
      → granted k b calls ≤ b.max - (item_at dec b w k).curr
  unfolding granted
  granted_le k w b [] small h = omega arith
  granted_le k w b ((now, key) ∷ calls) small h =
      let u = (take dec fl b now key).0 in
      let same_max : u.max ≡ b.max = (take-settings dec (over fl) b now key).0 in
      let rest : granted k u calls ≤ b.max - count_at u w k =
        subst (λ (m : ℕ). granted k u calls ≤ m - count_at u w k) same_max
          (granted_le k w u calls (subst (λ (m : ℕ). m < 2 ^ 53) (sym same_max) small) (
            subst (λ (s : ℕ). All (λ call. call.0 / s ≡ w) calls)
              (sym (take-size dec (over fl) b now key)) h.1)) in
      elim (dec key k) [
        | yes same ↦
            let left =
              subst
                (λ (x : K).
                  (((take dec fl b now key).1 ≡ false) × (count_at u w x ≡ count_at b w x))
                  ⊎ (((take dec fl b now key).1 ≡ true)
                      × (count_at u w x ≡ count_at b w x + 1)
                      × (count_at b w x < b.max)))
                same (grant_left b now w key h.0 small) in
            ground (arith, left, rest)
        | no other ↦ ground (arith, count-elsewhere b now w key k other, rest)
      ]
