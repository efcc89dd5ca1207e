-- ===== src/Upstream/Hedging.antt =====
-- pkg/upstream/hedging.go: a request raced against its hedges. The supervisor's `select` is a function of
-- the event that it takes, and Race lets the events come in any order.
use parapet.Prelude.{
  ℕ, zero, suc, ◌+◌, ◌-◌, List, [], ◌∷◌, ◌++◌, Option, none, some, Bool, true, false, not, ◌&&◌,
  ◌||◌, ltb, leb, ◌==◌, if◌then◌else◌, map,
}
use parapet.GoInt64.{less}
use parapet.GoStrings.{Text, codes, text_eq}
pub mod Race
pub mod Count
pub mod Ends
pub mod Legs

-- The hooks are answers here: of `IsHedgeable` for the request, and of `won` in each result.
pub record Config : Type 0 where
  pub hedge_delay : ℕ
  pub max_hedge : ℕ
  pub hedge_on_error : Bool

-- `init`; the fields are int64 words.
unfoldable pub with_defaults : Config → Config
with_defaults c = record c { max_hedge = if less 0 c.max_hedge then c.max_hedge else 1 }

unfoldable pub can_method_retry : Text → Bool
can_method_retry m =
    text_eq m (codes "GET")
    || text_eq m (codes "HEAD")
    || text_eq m (codes "OPTIONS")
    || text_eq m (codes "TRACE")

-- What `hedgeable` asks of a request: its method, whether it has a body, and whether it is retried.
pub record Request : Type 0 where
  pub method : Text
  pub has_body : Bool
  pub retrying : Bool

unfoldable pub hedgeable : Option (Request → Bool) → Request → Bool
unfolding can_method_retry
hedgeable (some is_hedgeable) r = is_hedgeable r
hedgeable none r = can_method_retry r.method && not r.has_body && not r.retrying

unfoldable pub passes_through : Config → Option (Request → Bool) → Request → Bool
unfolding hedgeable
passes_through c hook r =
    not (less 0 c.hedge_delay) || not (less 0 c.max_hedge) || not (hedgeable hook r)

pub data LegError : Type 0 where
  transport : ℕ → LegError
  unavailable : LegError

-- A leg's outcome with the answer of `won`, and whether the body of its response is not nil; a loser may
-- come without an error.
pub record HedgeResult : Type 0 where
  pub won : Bool
  pub body : Bool
  pub err : Option LegError

-- One attempt: whether its context is cancelled, its result received and its body drained and closed by
-- the supervisor.
pub record Leg : Type 0 where
  pub cancelled : Bool
  pub finished : Bool
  pub closed : Bool

abbrev pub running : Leg
running = record { cancelled = false; finished = false; closed = false }

-- What `RoundTrip` returns; of the winner's response, the leg and whether it has a body.
pub data Reply : Type 0 where
  winner : ℕ → Bool → Reply
  failed : LegError → Reply
  disconnected : Reply

-- The supervisor's variables. `reaping` is the number of results that the reaper is left to drain.
pub record Supervisor : Type 0 where
  pub legs : List Leg
  pub launched : ℕ
  pub received : ℕ
  pub first_err : Option LegError
  pub timer : Bool
  pub reaping : ℕ
  pub reply : Option Reply

-- The primary is launched and the timer armed.
unfoldable pub start : Supervisor
start = record {
  legs = running ∷ [];
  launched = 1;
  received = 0;
  first_err = none;
  timer = true;
  reaping = 0;
  reply = none;
}

abbrev pub cancel : Leg → Leg
cancel l = record l { cancelled = true }

-- `launch`, after which the timer is armed again if another hedge remains.
unfoldable pub launch : ℕ → Supervisor → Supervisor
launch max s = record s {
  legs = s.legs ++ running ∷ [];
  launched = s.launched + 1;
  timer = ltb (s.launched + 1) max;
}

-- `wrapWinner` on the leg: with a body, the cancel is left to its close.
abbrev pub wrap_winner : Bool → Leg → Leg
wrap_winner body l = record l { cancelled = l.cancelled || not body; finished = true }

-- The losers' cancels and the winner, from leg i on.
unfoldable pub cancel_others : Bool → ℕ → ℕ → List Leg → List Leg
cancel_others body idx i [] = []
cancel_others body idx i (l ∷ ls) =
    (if i == idx then wrap_winner body l else cancel l) ∷ cancel_others body idx (i + 1) ls

-- The loser's own cancel and `drainClose`.
unfoldable pub lose : ℕ → List Leg → List Leg
lose idx [] = []
lose zero (l ∷ ls) = record { cancelled = true; finished = true; closed = true } ∷ ls
lose (suc idx) (l ∷ ls) = l ∷ lose idx ls

abbrev pub first_of : Option LegError → Option LegError → Option LegError
first_of (some e) next = some e
first_of none next = next

abbrev pub error_of : Option LegError → LegError
error_of (some e) = e
error_of none = unavailable

-- `case res := <-results`, with the number of attempts.
unfoldable pub on_result : ℕ → Bool → ℕ → HedgeResult → Supervisor → Supervisor
unfolding launch cancel_others lose
on_result max on_error idx res s =
    let received = s.received + 1 in
    let err = first_of s.first_err res.err in
    let lost = record s { received = received; legs = lose idx s.legs; first_err = err } in
    if res.won
    then record s {
      received = received;
      legs = cancel_others res.body idx 0 s.legs;
      reaping = s.launched - received;
      reply = some (winner idx res.body);
    }
    else if received == max
    then record lost { reply = some (failed (error_of err)) }
    else if on_error && ltb s.launched max
    then launch max lost
    else lost

-- `case <-timer.C`.
unfoldable pub on_timer : ℕ → Supervisor → Supervisor
unfolding launch
on_timer max s = if ltb s.launched max then launch max s else record s { timer = false }

-- `case <-r.Context().Done()`.
unfoldable pub on_done : Supervisor → Supervisor
on_done s = record s {
  legs = map cancel s.legs;
  reaping = s.launched - s.received;
  reply = some disconnected;
}
