-- ===== src/RateLimit/Limiter.antt =====
-- pkg/ratelimit/ratelimit.go: the middleware that takes a token before the handler runs and puts it
-- back once, and the interface of the strategies that it drives.
pub mod Once
use parapet.Prelude.{
  ℕ, ◌/◌, List, [], ◌∷◌, ◌++◌, Option, none, some, Bool, true, false, not, ◌||◌, ltb, if◌then◌else◌,
}

pub record Strategy (S K : Type 0) : Type 0 where
  pub take : S → K → S × Bool
  pub put : S → K → S
  pub after : S → K → ℕ

pub record Options : Type 0 where
  pub release_on_write_header : Bool
  pub release_on_hijacked : Bool

-- What reaches the response writer that is wrapped.
pub data Sent : Type 0 where
  header : ℕ → Sent
  body : List ℕ → Sent
  flushed : Sent
  hijacked : Sent

-- What happens while the handler runs: its calls of the writer, and what other requests do to the
-- strategy in the meantime.
pub data Event (S : Type 0) : Type 0 where
  write_header : ℕ → Event S
  write : List ℕ → Event S
  flush : Event S
  hijack : Event S
  elsewhere : (S → S) → Event S

-- `responseWriter`, with the strategy's state that it can change. `hijacker` says whether the writer
-- that is wrapped can be hijacked.
pub record ResponseWriter (S : Type 0) : Type 0 where
  pub state : S
  pub sent : List Sent
  pub hijacker : Bool
  pub wrote_header : Bool
  pub released : Bool
  pub release_on_write_header : Bool
  pub release_on_hijack : Bool

pub data Outcome : Type 0 where
  limited : Option ℕ → Outcome
  allowed : List Sent → Outcome

-- The Retry-After header that `defaultExceededHandler` sets, in seconds.
unfoldable pub retry_after : ℕ → Option ℕ
retry_after after = if ltb 0 after then some (after / 1000000000) else none

module _ {S K : Type 0} (strategy : Strategy S K) (key : K) where
  unfoldable pub release : ResponseWriter S → ResponseWriter S
  release w =
      if w.released then w else record w { released = true; state = strategy.put w.state key }

  -- `WriteHeader`.
  unfoldable pub send_header : ResponseWriter S → ℕ → ResponseWriter S
  unfolding release
  send_header w code =
      if w.wrote_header
      then w
      else (let opened = record w { wrote_header = true } in
          let w' = if w.release_on_write_header then release opened else opened in
          record w' { sent = w'.sent ++ header code ∷ [] })

  -- `Write`.
  unfoldable pub send_body : ResponseWriter S → List ℕ → ResponseWriter S
  unfolding send_header
  send_body w p =
      let w' = if w.wrote_header then w else send_header w 200 in
      record w' { sent = w'.sent ++ body p ∷ [] }

  -- `Hijack`.
  unfoldable pub take_over : ResponseWriter S → ResponseWriter S
  unfolding release
  take_over w =
      if w.hijacker
      then (let w' = if w.release_on_hijack then release w else w in
          record w' { sent = w'.sent ++ hijacked ∷ [] })
      else w

  unfoldable pub handle : ResponseWriter S → Event S → ResponseWriter S
  unfolding send_header send_body take_over
  handle w (write_header code) = send_header w code
  handle w (write p) = send_body w p
  handle w flush = record w { sent = w.sent ++ flushed ∷ [] }
  handle w hijack = take_over w
  handle w (elsewhere f) = record w { state = f w.state }

  unfoldable pub handle_all : ResponseWriter S → List (Event S) → ResponseWriter S
  unfolding handle
  handle_all w [] = w
  handle_all w (e ∷ es) = handle_all (handle w e) es

  -- `ServeHandler`: the handler's events stop where it returns or panics, and the deferred release
  -- runs either way. The path without a wrapper is the one where no event releases.
  unfoldable pub serve : Options → Bool → S → List (Event S) → S × Outcome
  unfolding release handle_all retry_after
  serve opts hijacker s es =
      let (s', ok) = strategy.take s key in
      if ok
      then (let w = release (
            handle_all
              (record {
                state = s';
                sent = [];
                hijacker = hijacker;
                wrote_header = false;
                released = false;
                release_on_write_header = opts.release_on_write_header;
                release_on_hijack = opts.release_on_hijacked;
              })
              es) in
          (w.state, allowed w.sent))
      else (s', limited (retry_after (strategy.after s' key)))
