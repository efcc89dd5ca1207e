-- ===== src/Tests/Balancers.antt =====
-- The other balancers of pkg/upstream at small inputs.
use parapet.Prelude.{
  ℕ, zero, suc, ◌+◌, ◌≡◌, ◌≢◌, refl, List, [], ◌∷◌, none, some, true, false, arith, total,
  replicate,
}
use parapet.GoInt64.{less, mul, sub}
use parapet.Upstream.Gate.{up}
use parapet.Upstream.CircuitBreaker.Word.{next32}
use parapet.Upstream.RoundRobin.{choose}
use parapet.Upstream.Ejecting
use parapet.Upstream.Ejecting.{EjectTarget, ejected_from, ejection_timeout}
use parapet.Upstream.Ejecting.Health
use parapet.Upstream.Ejecting.Health.{fail_all, fail_all-ejects}
use parapet.Upstream.Ejecting.Race.{
  Shared, Pc, idle, looping, loaded, counted, won, Run, fresh, step, enter, load, count, swap,
  store, Window, Runs, burst_once,
}
use parapet.Upstream.LeastConn
use parapet.Upstream.LeastConn.{Peer, Best, claimed, full}
use parapet.Upstream.LeastConn.Weigh.{IsOpen, Lighter}
use parapet.Upstream.LeastConn.Least.{choose_least}
use parapet.Upstream.LeastConn.Slots
use parapet.Upstream.LeastConn.Slots.{Pool, IsExact, Run-IsExact}
use parapet.Upstream.Weighted
use parapet.Upstream.Weighted.Shares.{settled_total}
use parapet.Upstream.Weighted.Pick.{IsFair, pick-IsFair}

-- Round robin passes over the target that the health check holds down, and falls open.
second_of_three :
    (choose 3 (record { cursor = 0; gate = some (false ∷ true ∷ true ∷ []) })).1 ≡ some 1
unfolding choose up
second_of_three = refl

all_dark : (choose 2 (record { cursor = 3; gate = some (false ∷ false ∷ []) })).1 ≡ some 1
unfolding choose up
all_dark = refl

-- Ejection after two failures, for 10, 20 and then 30 nanoseconds.
abbrev ejecting : Ejecting.Config
ejecting = record { max_fails = 2; eject_timeout = 10; max_eject_timeout = 30 }

ejecting-IsConfigured : Health.IsConfigured ejecting
ejecting-IsConfigured = record { fails = omega arith; timeout = omega arith; capped = omega arith }

third_timeout : ejection_timeout ejecting 3 ≡ 30
unfolding ejection_timeout
third_timeout = refl

abbrev sound : EjectTarget
sound = record { fails = 0; ejections = 0; ejected_until = 0; events = [] }

-- One call of `eject` among others that have not started.
abbrev only : Pc → ℕ → Pc
only p zero = p
only p (suc j) = idle

only_other : (p q : Pc) (j : ℕ) → 0 ≢ j → only q j ≡ only p j
only_other p q zero ne = absurd (ne refl)
only_other p q (suc j) ne = refl

first_other : (q : Pc) (j : ℕ) → 0 ≢ j → only q j ≡ idle
first_other q zero ne = absurd (ne refl)
first_other q (suc j) ne = refl

abbrev once_ejected : Shared
once_ejected = record {
  ejected_until = 7 + ejection_timeout ejecting (next32 0);
  ejections = 0;
  windows = record { from = 7; until = 7 + ejection_timeout ejecting (next32 0) } ∷ [];
}

ejected_run : Run ejecting once_ejected (only (won (next32 0)))
ejected_run =
    step 0
      (step 0
        (step 0 (step 0 (fresh 0) (enter 7) (first_other (looping 7))) (load (omega arith))
          (only_other (looping 7) (loaded 7 0)))
        count (only_other (loaded 7 0) (counted 7 0 (next32 0))))
      (swap refl) (only_other (counted 7 0 (next32 0)) (won (next32 0)))

-- The next ejection starts when the first one is over.
abbrev first_window : Window
first_window = record { from = 7; until = 7 + ejection_timeout ejecting (next32 0) }

abbrev second_window : Window
second_window = record { from = 20; until = 20 + ejection_timeout ejecting (next32 1) }

abbrev twice_ejected : Shared
twice_ejected = record {
  ejected_until = 20 + ejection_timeout ejecting (next32 1);
  ejections = 1;
  windows = second_window ∷ first_window ∷ [];
}

second_run : Run ejecting twice_ejected (only (won (next32 1)))
unfolding ejection_timeout
second_run =
    step 0
      (step 0
        (step 0
          (step 0 (step 0 ejected_run store (only_other (won 1) idle)) (enter 20)
            (only_other idle (looping 20)))
          (load (omega arith)) (only_other (looping 20) (loaded 20 17)))
        count (only_other (loaded 20 17) (counted 20 17 (next32 1))))
      (swap refl) (only_other (counted 20 17 (next32 1)) (won (next32 1)))

burst_once_example : ¬ Runs 21 first_window
unfolding ejection_timeout
burst_once_example =
    burst_once ejecting ejecting-IsConfigured 21 0 1 second_window first_window second_run refl refl
      (omega arith) (omega arith, omega arith)

-- Three peers: one is at its cap of 1, and of the others the second carries less for its weight.
abbrev peers : List Peer
peers =
    record { weight = 1; cap = 1; active = 1 }
    ∷ record { weight = 1; cap = 0; active = 2 }
    ∷ record { weight = 3; cap = 0; active = 5 }
    ∷ []

abbrev loaded_pool : LeastConn.Balancer
loaded_pool = record { cursor = 4294967295; peers = peers; gate = none }

lightest : LeastConn.choose loaded_pool ≡ claimed (record { idx = 2; active = 5; weight = 3 })
unfolding LeastConn.choose up less mul
lightest = refl

choose_least_example :
    (best : Best) × (LeastConn.choose loaded_pool ≡ claimed best)
    × IsOpen false none peers best
    × Lighter best 2 1
unfolding up
choose_least_example =
    choose_least loaded_pool 1 (record { weight = 1; cap = 0; active = 2 })
      (
        (omega arith, omega arith, omega arith),
        ((omega arith, omega arith, omega arith), ((omega arith, omega arith, omega arith), tt)),
      )
      (omega arith) refl refl refl

-- One of two requests takes the only slot.
abbrev taken : Pool
taken = record { active = 1; requests = Slots.running ∷ Slots.outside ∷ [] }

taken_run : Slots.Run 1 2 taken
unfolding replicate
taken_run =
    Slots.step
      (Slots.step (Slots.step Slots.idle (Slots.observe 0 refl))
        (Slots.claim_under 0 0 refl (omega arith)))
      (Slots.swap 0 0 refl refl)

Run-IsExact_example : IsExact 1 taken
Run-IsExact_example = Run-IsExact taken_run

-- Weights 5 and 1, of which the second target is held down.
abbrev weighted : Weighted.Balancer
weighted = record {
  sum = 6;
  peers =
      record { weight = 5; current = 0; was_up = true }
      ∷ record { weight = 1; current = 0; was_up = true }
      ∷ [];
  gate = some (true ∷ false ∷ []);
}

weighted_sum : weighted.sum ≡ 6
weighted_sum = refl

first_picked : (Weighted.pick weighted).1 ≡ some 0
unfolding Weighted.pick up sub
first_picked = refl

pick-IsFair_example :
    IsFair
      (up weighted.gate)
      2
      (settled_total (up weighted.gate) 0 weighted.peers)
      (Weighted.pick weighted).0.peers
      (Weighted.pick weighted).1
unfolding total
pick-IsFair_example = pick-IsFair weighted (omega arith) refl
