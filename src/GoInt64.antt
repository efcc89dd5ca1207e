-- ===== src/GoInt64.antt =====
-- Go's int64 as a word of 64 bits in two's complement: a natural number below 2 ^ 64, of which those
-- from 2 ^ 63 up are negative. `time.Duration` is such a word, a number of nanoseconds.
use parapet.Prelude.{ℕ, ◌+◌, ◌-◌, ◌*◌, ◌%◌, ◌<◌, ◌≡◌, Bool, true, ltb, leb, if◌then◌else◌, arith}

-- 2 ^ 63 and 2 ^ 64.
abbrev pub sign_bit : ℕ
sign_bit = 9223372036854775808

abbrev pub modulus : ℕ
modulus = 18446744073709551616

abbrev pub second : ℕ
second = 1000000000

unfoldable pub less : ℕ → ℕ → Bool
less a b = ltb ((a + sign_bit) % modulus) ((b + sign_bit) % modulus)

unfoldable pub sub : ℕ → ℕ → ℕ
sub a b = (a + (modulus - b)) % modulus

unfoldable pub mul : ℕ → ℕ → ℕ
mul a b = a * b % modulus

-- `Time.Sub`, which saturates.
unfoldable pub time_sub : ℕ → ℕ → ℕ
time_sub t u =
    if leb u t
    then (if ltb (t - u) sign_bit then t - u else sign_bit - 1)
    else if leb (u - t) sign_bit
    then modulus - (u - t)
    else sign_bit

abbrev pub IsNonneg : ℕ → Type 0
IsNonneg a = a < sign_bit

pub less-nonneg : (a b : ℕ) → IsNonneg a → IsNonneg b → less a b ≡ ltb a b
unfolding less
less-nonneg a b ha hb = ground arith

pub less_zero : (a : ℕ) → a < modulus → less a 0 ≡ leb sign_bit a
unfolding less
less_zero a h = ground arith

pub zero_less : (a : ℕ) → a < modulus → less 0 a ≡ true → (0 < a) × IsNonneg a
unfolding less
zero_less a h e = ground arith
