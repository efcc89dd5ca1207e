-- ===== src/Cache/Policy/Freshness.antt =====
-- For how long a response is fresh on arrival, and the windows in which it may be served stale.
use parapet.Prelude.{
  ℕ, ◌-◌, ◌*◌, ◌%◌, ◌≤◌, ◌<◌, ◌≡◌, [], Option, none, some, true, false, ◌||◌, if◌then◌else◌, arith,
  Option-cases, Bool-cases, inl, inr,
}
use parapet.GoInt64.{less, sub, mul, time_sub, second, sign_bit, modulus, IsNonneg, less-nonneg}
use parapet.GoStrings.{Text, text_eq, codes, trim_space}
use parapet.GoStrings.ParseInt.{parse_int}
use parapet.Cache.Policy.{Header, CacheControl, get, max_ttl}

unfoldable pub clamp_stale_window : ℕ → ℕ
clamp_stale_window d = if less d 0 then 0 else if less max_ttl d then max_ttl else d

unfoldable pub stale_windows : CacheControl → ℕ × ℕ
unfolding clamp_stale_window
stale_windows cc = if cc.must_revalidate || cc.proxy_revalidate then (0, 0) else (
  clamp_stale_window (mul cc.stale_while_revalidate second),
  clamp_stale_window (mul cc.stale_if_error second),
)

-- `ageVal`: the Age header, if it is a positive number.
unfoldable pub age_value : Text → ℕ
age_value v = if text_eq v [] then 0 else elim (parse_int (trim_space v)) [
  | none ↦ 0
  | some n ↦ if less 0 n then mul n second else 0
]

module _ (parse_time : Text → Option ℕ) where
  -- The reference time of Expires: the Date, if it can be read.
  unfoldable pub date_or : Header → ℕ → ℕ
  date_or h now =
      if text_eq (get h (codes "Date")) []
      then now
      else elim (parse_time (get h (codes "Date"))) [ none ↦ now | some dt ↦ dt ]

  unfoldable pub freshness_lifetime : CacheControl → Header → ℕ → ℕ
  unfolding date_or
  freshness_lifetime cc h now =
      if cc.has_s_max
      then mul cc.s_max_age second
      else if cc.has_max
      then mul cc.max_age second
      else if text_eq (get h (codes "Expires")) []
      then 0
      else elim (parse_time (get h (codes "Expires"))) [
        | none ↦ 0
        | some exp ↦ time_sub exp (date_or h now)
      ]

  -- `apparent`.
  unfoldable pub apparent_age : Header → ℕ → ℕ
  apparent_age h now =
      if text_eq (get h (codes "Date")) [] then 0 else elim (parse_time (get h (codes "Date"))) [
        | none ↦ 0
        | some dt ↦ if less 0 (time_sub now dt) then time_sub now dt else 0
      ]

  unfoldable pub response_age : Header → ℕ → ℕ
  unfolding age_value apparent_age
  response_age h now =
      if less (apparent_age h now) (age_value (get h (codes "Age")))
      then age_value (get h (codes "Age"))
      else apparent_age h now

  unfoldable pub freshness : CacheControl → Header → ℕ → ℕ
  unfolding freshness_lifetime response_age
  freshness cc h now =
      if less 0 (freshness_lifetime cc h now)
      then sub (freshness_lifetime cc h now) (response_age h now)
      else freshness_lifetime cc h now

pub clamp_stale_window-le : (d : ℕ) → d < modulus → clamp_stale_window d ≤ max_ttl
unfolding clamp_stale_window less
clamp_stale_window-le d h = ground arith

pub stale_windows-le :
    (cc : CacheControl) → ((stale_windows cc).0 ≤ max_ttl) × ((stale_windows cc).1 ≤ max_ttl)
unfolding stale_windows mul
stale_windows-le cc = ground (
  arith,
  clamp_stale_window-le (cc.stale_while_revalidate * second % modulus) (omega arith),
  clamp_stale_window-le (cc.stale_if_error * second % modulus) (omega arith),
)

time_sub-lt : (t u : ℕ) → time_sub t u < modulus
unfolding time_sub
time_sub-lt t u = ground arith

positive_part : (x : ℕ) → x < modulus → IsNonneg (if less 0 x then x else 0)
unfolding less
positive_part x h = ground arith

larger : (a b : ℕ) → IsNonneg a → b < modulus → IsNonneg (if less a b then b else a)
unfolding less
larger a b ha hb = ground arith

age_value-lt : (v : Text) → age_value v < modulus
unfolding age_value mul
age_value-lt v = elim (Bool-cases (text_eq v [])) [
  | inl e ↦ rw e (omega arith)
  | inr e ↦ rw e (elim (Option-cases (parse_int (trim_space v))) [
    | inl p ↦ rw p (omega arith)
    | inr (n, p) ↦ rw p (ground arith)
  ])
]

-- The wait that a nonnegative word leaves of another.
sub_nonneg :
    (a b : ℕ)
    → IsNonneg a
    → IsNonneg b
    → (b < a → sub a b ≡ a - b) × (a ≤ b → less 0 (sub a b) ≡ false)
unfolding sub less
sub_nonneg a b ha hb = (λ h. ground arith, λ h. ground arith)

-- The seconds that s-maxage gives, or else max-age.
abbrev pub declared : CacheControl → Option ℕ
declared cc =
    if cc.has_s_max then some cc.s_max_age else if cc.has_max then some cc.max_age else none

module _ (parse_time : Text → Option ℕ) (h : Header) (now : ℕ) where
  apparent_age-IsNonneg : IsNonneg (apparent_age parse_time h now)
  unfolding apparent_age
  apparent_age-IsNonneg = elim (Bool-cases (text_eq (get h (codes "Date")) [])) [
    | inl e ↦ rw e (omega arith)
    | inr e ↦ rw e (elim (Option-cases (parse_time (get h (codes "Date")))) [
      | inl p ↦ rw p (omega arith)
      | inr (dt, p) ↦ rw p (positive_part (time_sub now dt) (time_sub-lt now dt))
    ])
  ]

  response_age-IsNonneg : IsNonneg (response_age parse_time h now)
  unfolding response_age
  response_age-IsNonneg =
      larger (apparent_age parse_time h now) (age_value (get h (codes "Age"))) apparent_age-IsNonneg
        (age_value-lt (get h (codes "Age")))

  lifetime_given :
      (cc : CacheControl) (n : ℕ)
      → n * second < sign_bit
      → declared cc ≡ some n
      → freshness_lifetime parse_time cc h now ≡ n * second
  unfolding freshness_lifetime mul
  lifetime_given cc n small given = ground arith

  -- Freshness that the origin gives in seconds, if its nanoseconds fit an int64, is what the
  -- response's age leaves of it; a response as old as that or older is not fresh.
  pub freshness-eq-left :
      (cc : CacheControl) (n : ℕ)
      → n * second < sign_bit
      → declared cc ≡ some n
      → let age = response_age parse_time h now in
        (age < n * second → freshness parse_time cc h now ≡ n * second - age)
        × (n * second ≤ age → less 0 (freshness parse_time cc h now) ≡ false)
  unfolding freshness
  freshness-eq-left cc n small given =
      let age = response_age parse_time h now in
      let (left, late) = sub_nonneg (n * second) age small response_age-IsNonneg in
      let positive = less-nonneg 0 (n * second) (omega arith) small in
      rw (lifetime_given cc n small given)
        (λ l. ground (arith, left l, positive), λ l. ground (arith, late l, positive))

module _ (parse_time : Text → Option ℕ) (h : Header) (now : ℕ) where
  lifetime-lt : (cc : CacheControl) → freshness_lifetime parse_time cc h now < modulus
  unfolding freshness_lifetime mul
  lifetime-lt cc = elim (Option-cases (parse_time (get h (codes "Expires")))) [
    | inl e ↦ ground arith
    | inr (exp, e) ↦ ground (arith, time_sub-lt exp (date_or parse_time h now))
  ]

  pub freshness-lt : (cc : CacheControl) → freshness parse_time cc h now < modulus
  unfolding freshness sub
  freshness-lt cc = ground (arith, lifetime-lt cc)

pub revalidate-stale_windows :
    (cc : CacheControl)
    → (cc.must_revalidate || cc.proxy_revalidate) ≡ true
    → stale_windows cc ≡ (0, 0)
unfolding stale_windows
revalidate-stale_windows cc h = ground arith
