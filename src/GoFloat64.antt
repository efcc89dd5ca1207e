-- ===== src/GoFloat64.antt =====
-- Go's float64, of which the language defines the operations: what the sources call as a record, and
-- as another one what IEEE 754 says of them at the integers that the sources convert. Those are below
-- 2 ^ 63, so that no sum or product here leaves the range, and a result is the exact one, rounded to a
-- significand of 53 bits.
use parapet.Prelude.{ℕ, ◌+◌, ◌≤◌, ◌<◌, ◌^◌, ◌≡◌, Bool, true, false}

-- `less` and `le` are `<` and `<=`, which are false at a NaN; `trunc` is the conversion to an integer, of
-- a number that is not negative.
pub record Float64 (F : Type 0) : Type 0 where
  pub of_int : ℕ → F
  pub add : F → F → F
  pub sub : F → F → F
  pub mul : F → F → F
  pub div : F → F → F
  pub less : F → F → Bool
  pub le : F → F → Bool
  pub trunc : F → ℕ

pub record IsRounded {F : Type 0} (fl : Float64 F) : Type 0 where
  -- the order
  pub less_le : (x y z : F) → fl.less x y ≡ true → fl.le y z ≡ true → fl.less x z ≡ true
  pub less_of_le : (x y : F) → fl.le x y ≡ true → fl.less y x ≡ false
  pub le_trans : (x y z : F) → fl.le x y ≡ true → fl.le y z ≡ true → fl.le x z ≡ true
  -- conversion keeps the order, and up to 2 ^ 53 it is exact
  pub of_int_le : (m n : ℕ) → m ≤ n → fl.le (fl.of_int m) (fl.of_int n) ≡ true
  pub of_int_less : (m n : ℕ) → m < n → n ≤ 2 ^ 53 → fl.less (fl.of_int m) (fl.of_int n) ≡ true
  pub add_exact :
      (m n : ℕ) → m + n ≤ 2 ^ 53 → fl.add (fl.of_int m) (fl.of_int n) ≡ fl.of_int (m + n)
  -- rounding keeps the order, and leaves a bound that is a converted integer
  pub add_le :
      (x y : F) (n : ℕ)
      → fl.le x y ≡ true
      → fl.le (fl.add x (fl.of_int n)) (fl.add y (fl.of_int n)) ≡ true
  pub add_nonneg :
      (x : F) (n : ℕ)
      → fl.le (fl.of_int 0) x ≡ true
      → fl.le (fl.of_int n) (fl.add x (fl.of_int n)) ≡ true
  pub div_nonneg :
      (m n : ℕ) → 0 < n → fl.le (fl.of_int 0) (fl.div (fl.of_int m) (fl.of_int n)) ≡ true
  pub div_le_one :
      (m n : ℕ) → m ≤ n → 0 < n → fl.le (fl.div (fl.of_int m) (fl.of_int n)) (fl.of_int 1) ≡ true
  pub sub_nonneg :
      (x : F) (n : ℕ)
      → fl.le x (fl.of_int n) ≡ true
      → fl.le (fl.of_int 0) (fl.sub (fl.of_int n) x) ≡ true
  pub sub_le :
      (x : F) (n : ℕ)
      → fl.le (fl.of_int 0) x ≡ true
      → fl.le (fl.sub (fl.of_int n) x) (fl.of_int n) ≡ true
  pub mul_nonneg :
      (x : F) (m n : ℕ)
      → fl.le (fl.of_int 0) x ≡ true
      → fl.le x (fl.of_int n) ≡ true
      → fl.le (fl.of_int 0) (fl.mul (fl.of_int m) x) ≡ true
