-- ===== src/Tests/SlidingWindow.antt =====
-- pkg/ratelimit/slidingwindow.go at small inputs.
use parapet.Prelude.{
  ℕ, ◌+◌, ◌*◌, ◌-◌, ◌/◌, ◌%◌, ◌<◌, ◌≤◌, ◌≡◌, refl, some, [], ◌∷◌, Bool, true, false, ltb, leb, ◌||◌,
  arith, ℕ_discrete,
}
use parapet.Prelude.Assoc
use parapet.GoFloat64.{Float64, IsRounded}
use parapet.RateLimit.SlidingWindow.{
  SlidingWindow, new, size, roll, item_at, take, take_by, after, after_at, over, weighted_count,
  evict_stale,
}
use parapet.RateLimit.SlidingWindow.Hidden.{answers, answers-evict_stale}
use parapet.RateLimit.SlidingWindow.Wait.{after-take}
use parapet.RateLimit.SlidingWindow.Cap.{granted, granted_le}

-- The comparison over the rationals: prev * (size - now % size) + (curr + 1) * size > max * size.
exceeds : ℕ → ℕ → ℕ → ℕ → ℕ → Bool
exceeds prev curr now size max =
    leb max curr || ltb (max * size) (prev * (size - now % size) + (curr + 1) * size)

abbrev limiter : SlidingWindow ℕ
limiter = record {
  storage = (7, record { window = 0; curr = 2; prev = 0 }) ∷ [];
  cleanup_running = true;
  max = 2;
  window_size = 100;
}

two_taken :
    (take_by ℕ_discrete exceeds (take_by ℕ_discrete exceeds (new 2 100) 10 7).0 20 7).0 ≡ limiter
unfolding take_by new size item_at roll Assoc.get Assoc.put exceeds ℕ_discrete
two_taken = refl

-- Two in a window, one in the middle of the next one, and two again after a pause.
faded :
    answers ℕ_discrete exceeds limiter ((30, 7) ∷ (110, 7) ∷ (150, 7) ∷ (160, 7) ∷ (400, 7) ∷ [])
    ≡ false ∷ false ∷ true ∷ false ∷ true ∷ []
unfolding answers take_by new size item_at roll Assoc.get Assoc.put exceeds ℕ_discrete
faded = refl

answers-evict_stale_example :
    answers ℕ_discrete exceeds (evict_stale ℕ_discrete limiter 350).0 ((360, 7) ∷ (420, 8) ∷ [])
    ≡ answers ℕ_discrete exceeds limiter ((360, 7) ∷ (420, 8) ∷ [])
unfolding size
answers-evict_stale_example =
    answers-evict_stale ℕ_discrete exceeds limiter 350 ((360, 7) ∷ (420, 8) ∷ [])
      (omega arith, (omega arith, tt))

-- Arithmetic that drops the fractions, with differences that stop at 0.
abbrev whole : Float64 ℕ
whole = record {
  of_int = λ n. n;
  add = λ x y. x + y;
  sub = λ x y. x - y;
  mul = λ x y. x * y;
  div = λ x y. x / y;
  less = ltb;
  le = leb;
  trunc = λ x. x;
}

div_le_one : (m n : ℕ) → m ≤ n → 0 < n → m / n ≤ 1
div_le_one m n le pos = grind arith

whole-IsRounded : IsRounded whole
whole-IsRounded = record {
  less_le = λ x y z. ground arith;
  less_of_le = λ x y. ground arith;
  le_trans = λ x y z. ground arith;
  of_int_le = λ m n. ground arith;
  of_int_less = λ m n. ground arith;
  add_exact = λ m n _. refl;
  add_le = λ x y n. ground arith;
  add_nonneg = λ x n. ground arith;
  div_nonneg = λ m n. ground arith;
  div_le_one = λ m n le pos. ground (arith, div_le_one m n le pos);
  sub_nonneg = λ x n. ground arith;
  sub_le = λ x n. ground arith;
  mul_nonneg = λ x m n. ground arith;
}

-- A window's two, and two of the next one's.
whole_answers : granted ℕ_discrete whole whole-IsRounded 7 limiter ((30, 7) ∷ (220, 7) ∷ []) ≡ 1
unfolding granted take_by new size item_at roll Assoc.get Assoc.put over weighted_count ℕ_discrete
whole_answers = refl

known : Assoc.get ℕ_discrete 7 limiter.storage ≡ some (record { window = 0; curr = 2; prev = 0 })
unfolding Assoc.get ℕ_discrete
known = refl

-- After a pause a known key is let in at once.
no_wait : after ℕ_discrete whole limiter 450 7 ≡ 0
unfolding after after_at weighted_count size roll Assoc.get ℕ_discrete
no_wait = refl

let_in : (take ℕ_discrete whole limiter 450 7).1 ≡ true
let_in =
    after-take ℕ_discrete whole whole-IsRounded limiter 450 7
      (record { window = 0; curr = 2; prev = 0 }) known no_wait

granted_le_example :
    granted ℕ_discrete whole whole-IsRounded 7 limiter ((110, 7) ∷ (150, 7) ∷ [])
    ≤ limiter.max - (item_at ℕ_discrete limiter 1 7).curr
unfolding size
granted_le_example =
    granted_le ℕ_discrete whole whole-IsRounded 7 1 limiter ((110, 7) ∷ (150, 7) ∷ []) (omega arith)
      (refl, (refl, tt))
