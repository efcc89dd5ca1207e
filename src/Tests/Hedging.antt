-- ===== src/Tests/Hedging.antt =====
-- pkg/upstream/hedging.go at small inputs.
use parapet.Prelude.{
  ℕ, ◌+◌, ◌*◌, ◌≤◌, ◌≡◌, ◌≢◌, refl, none, some, true, false, get_elem?, arith, ◌⊎◌,
}
use parapet.GoInt64.{less}
use parapet.GoStrings.{codes, text_eq}
use parapet.Upstream.Hedging.{
  with_defaults, hedgeable, passes_through, transport, Leg, HedgeResult, Supervisor, start, winner,
  failed, on_result, on_timer,
}
use parapet.Upstream.Hedging.Race.{Run, begin, turn, tick, result}
use parapet.Upstream.Hedging.Ends.{Run_ends}
use parapet.Upstream.Hedging.Legs.{Settles, Run-Settles}

-- A POST is not hedged, a GET that is being retried is not hedged again, and without a delay nothing is.
post_is_not :
    hedgeable none (record { method = codes "POST"; has_body = false; retrying = false }) ≡ false
unfolding hedgeable text_eq
post_is_not = refl

retried_is_not :
    hedgeable none (record { method = codes "GET"; has_body = false; retrying = true }) ≡ false
unfolding hedgeable text_eq
retried_is_not = refl

off_without_delay :
    passes_through
      (with_defaults (record { hedge_delay = 0; max_hedge = 0; hedge_on_error = false }))
      none
      (record { method = codes "GET"; has_body = false; retrying = false })
    ≡ true
unfolding passes_through with_defaults less
off_without_delay = refl

-- The primary is slow, one hedge is launched, and the primary loses before the hedge wins.
abbrev lost : HedgeResult
lost = record { won = false; body = false; err = some (transport 7) }

abbrev good : HedgeResult
good = record { won = true; body = true; err = none }

abbrev hedged : Supervisor
hedged = on_timer 2 start

abbrev raced : Supervisor
raced = on_result 2 true 1 good (on_result 2 true 0 lost hedged)

raced_run : Run 2 true 3 raced
unfolding on_timer on_result start
raced_run =
    turn
      (turn (turn begin (tick refl refl)) (
        result 0 lost (record { cancelled = false; finished = false; closed = false }) refl refl
          refl))
      (result 1 good (record { cancelled = false; finished = false; closed = false }) refl refl
        refl)

hedge_wins : raced.reply ≡ some (winner 1 true)
unfolding on_timer on_result start
hedge_wins = refl

-- When all lose, the first error is the one that is returned.
first_error :
    (on_result 2 true 1 lost
      (on_result 2 true 0 (record { won = false; body = true; err = none }) hedged)).reply
    ≡ some (failed (transport 7))
unfolding on_timer on_result start
first_error = refl

Run_ends_example :
    (3 ≤ 2 * 2)
    × (raced.launched ≤ 2)
    × (raced.reply ≢ none → raced.received + raced.reaping ≡ raced.launched)
    × (raced.reply ≡ none
        → (raced.timer ≡ true)
          ⊎ ((idx : ℕ) × (l : Leg) × (get_elem? raced.legs idx ≡ some l) × (l.finished ≡ false)))
Run_ends_example = Run_ends (omega arith) raced_run

Run-Settles_example :
    Settles raced.reply 0 (record { cancelled = true; finished = true; closed = true })
unfolding on_timer on_result start
Run-Settles_example =
    Run-Settles raced_run 0 (record { cancelled = true; finished = true; closed = true }) refl
