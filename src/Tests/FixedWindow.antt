-- ===== src/Tests/FixedWindow.antt =====
-- pkg/ratelimit/fixedwindow.go at small inputs: two tokens in a window of ten nanoseconds.
use Prim.Native.Nat.{min}
use parapet.Prelude.{
  ℕ, ◌≡◌, ◌≢◌, ◌↔◌, refl, List, [], ◌∷◌, none, some, true, false, arith, ℕ_discrete,
}
use parapet.Prelude.Assoc
use parapet.RateLimit.FixedWindow.{FixedWindow, new, take, after}
use parapet.RateLimit.FixedWindow.Budget.{IsReady, left, granted, granted-eq-min}
use parapet.RateLimit.FixedWindow.After.{after-take}

abbrev drained : FixedWindow ℕ
drained = record { last_window = 5; storage = some ((7, 0) ∷ []); max = 2; size = 10 }

abbrev calls : List (ℕ × ℕ)
calls = (50, 7) ∷ (51, 8) ∷ (53, 7) ∷ (55, 7) ∷ []

-- A new limiter in its first window has a nil map, and a write to it panics.
first_window : take ℕ_discrete (new 2 10) 3 7 ≡ none
unfolding take new ℕ_discrete
first_window = refl

granted_two : granted ℕ_discrete 7 (new 2 10) calls ≡ some 2
unfolding granted take new ℕ_discrete Assoc.get Assoc.put
granted_two = refl

new-IsReady : IsReady {K = ℕ} (new 2 10) 5
unfolding new
new-IsReady = record { positive = omega arith; made = λ e. absurd (omega arith) }

granted-eq-min_example :
    granted ℕ_discrete 7 (new 2 10) calls ≡ some (min (left ℕ_discrete (new 2 10) 5 7) 3)
unfolding new ℕ_discrete
granted-eq-min_example = granted-eq-min ℕ_discrete 7 5 (new 2 10) calls new-IsReady (omega arith)

after-take_example :
    (after ℕ_discrete drained 53 7 ≢ none)
    × ((after ℕ_discrete drained 53 7 ≡ some 0) ↔ (false ≡ true))
unfolding take ℕ_discrete Assoc.get
after-take_example = after-take ℕ_discrete drained 53 7 drained false (omega arith) refl
