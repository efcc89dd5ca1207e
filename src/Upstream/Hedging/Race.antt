-- ===== src/Upstream/Hedging/Race.antt =====
-- The supervisor against the results of its legs, the timer and the client.
use parapet.Prelude.{ℕ, suc, ◌≡◌, none, some, Bool, true, false, get_elem?}
use parapet.Upstream.Hedging.{Leg, HedgeResult, Supervisor, start, on_result, on_timer, on_done}

-- One turn of the `select`. Each leg sends one result; the timer fires when it is armed.
pub data Step (max : ℕ) (on_error : Bool) (s : Supervisor) : Supervisor → Type 0 where
  result :
      (idx : ℕ) (res : HedgeResult) (l : Leg)
      → s.reply ≡ none
      → get_elem? s.legs idx ≡ some l
      → l.finished ≡ false
      → Step max on_error s (on_result max on_error idx res s)
  tick : s.reply ≡ none → s.timer ≡ true → Step max on_error s (on_timer max s)
  leave : s.reply ≡ none → Step max on_error s (on_done s)

-- Runs of n turns.
pub data Run (max : ℕ) (on_error : Bool) : ℕ → Supervisor → Type 0 where
  begin : Run max on_error 0 start
  turn :
      {n : ℕ} {s t : Supervisor}
      → Run max on_error n s
      → Step max on_error s t
      → Run max on_error (suc n) t
