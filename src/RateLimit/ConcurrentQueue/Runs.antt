-- ===== src/RateLimit/ConcurrentQueue/Runs.antt =====
-- The runs of the strategy: requests that queue, enter, run and finish, in any interleaving.
use parapet.Prelude.{
  subst, ℕ, ◌+◌, ◌-◌, ◌≤◌, ◌<◌, ◌≡◌, ◌≢◌, refl, List, [], ◌∷◌, ◌++◌, none, some, Bool, true, false,
  if◌then◌else◌, ite, arith,
}
use parapet.Prelude.Assoc
use parapet.RateLimit.ConcurrentQueue.{
  QueueItem, ConcurrentQueue, new, item_at, queue, send, settle, put,
}

-- Where a request is: counted, past the channel, or past the second lock.
pub data Stage : Type 0 where
  waiting : Stage
  entered : Stage
  running : Stage

abbrev is_stage : Stage → Stage → Bool
is_stage waiting waiting = true
is_stage entered entered = true
is_stage running running = true
is_stage _ _ = false

module _ {K : Type 0} (dec : Discrete K) where
  abbrev pub one : Stage → K → K × Stage → ℕ
  one s k (j, r) = ite (dec j k) (if is_stage r s then 1 else 0) 0

  -- How many requests of the key are at the stage.
  unfoldable pub count : Stage → K → List (K × Stage) → ℕ
  count s k [] = 0
  count s k (x ∷ xs) = one s k x + count s k xs

  count-append :
      (s : Stage) (k : K) (x : K × Stage) (xs ys : List (K × Stage))
      → count s k (xs ++ x ∷ ys) ≡ one s k x + count s k (xs ++ ys)
  unfolding count
  count-append s k x [] ys = refl
  count-append s k x (y ∷ xs) ys = omega (arith, count-append s k x xs ys)

  -- A state of the strategy and the requests in it.
  pub data Reachable (capacity size : ℕ) : ConcurrentQueue K → List (K × Stage) → Type 0 where
    fresh : Reachable capacity size (new capacity size) []
    queued :
        {b : ConcurrentQueue K} {ts : List (K × Stage)} (key : K)
        → Reachable capacity size b ts
        → (queue dec b key).1 ≡ true
        → Reachable capacity size (queue dec b key).0 ((key, waiting) ∷ ts)
    refused :
        {b : ConcurrentQueue K} {ts : List (K × Stage)} (key : K)
        → Reachable capacity size b ts
        → (queue dec b key).1 ≡ false
        → Reachable capacity size (queue dec b key).0 ts
    sent :
        {b b' : ConcurrentQueue K} (key : K) (xs ys : List (K × Stage))
        → Reachable capacity size b (xs ++ (key, waiting) ∷ ys)
        → send dec b key ≡ some b'
        → Reachable capacity size b' (xs ++ (key, entered) ∷ ys)
    settled :
        {b : ConcurrentQueue K} (key : K) (xs ys : List (K × Stage))
        → Reachable capacity size b (xs ++ (key, entered) ∷ ys)
        → Reachable capacity size (settle dec b key) (xs ++ (key, running) ∷ ys)
    finished :
        {b b' : ConcurrentQueue K} (key : K) (xs ys : List (K × Stage))
        → Reachable capacity size b (xs ++ (key, running) ∷ ys)
        → put dec b key ≡ some b'
        → Reachable capacity size b' (xs ++ ys)

  -- The counts of a key's item are those of its requests, and keep their bounds.
  pub record Counts (capacity size : ℕ) (t : QueueItem) (w e r : ℕ) : Type 0 where
    pub tokens : t.process ≡ e + r
    pub queue_full : t.queue_count ≡ w + e
    pub all : t.process_count ≡ w + e + r
    pub within : t.process ≤ capacity
    pub queue_within : t.queue_count ≤ size

  pub record IsCounted (capacity size : ℕ) (b : ConcurrentQueue K) (ts : List (K × Stage))
      : Type 0 where
    pub cap : b.capacity ≡ capacity
    pub max : b.size ≡ size
    pub items :
        (k : K)
        → Counts capacity size
            (item_at dec b k)
            (count waiting k ts)
            (count entered k ts)
            (count running k ts)

  module _ {capacity size : ℕ} (b : ConcurrentQueue K) (key : K) where
    queue-IsCounted :
        (ts : List (K × Stage))
        → IsCounted capacity size b ts
        → IsCounted capacity size
            (queue dec b key).0
            (if (queue dec b key).1 then (key, waiting) ∷ ts else ts)
    unfolding queue count item_at
    queue-IsCounted ts h =
        let t = item_at dec b key in
        let more = record t {
          process_count = t.process_count + 1;
          queue_count = t.queue_count + 1;
        } in
        record {
          cap = ground (arith, h.cap);
          max = ground (arith, h.max);
          items = λ k. ground (
            arith,
            h.items k,
            h.items key,
            h.max,
            Assoc.get-put dec key k t b.storage,
            Assoc.get-put dec key k more b.storage,
          );
        }

    send-IsCounted :
        (xs ys : List (K × Stage)) (b' : ConcurrentQueue K)
        → IsCounted capacity size b (xs ++ (key, waiting) ∷ ys)
        → send dec b key ≡ some b'
        → IsCounted capacity size b' (xs ++ (key, entered) ∷ ys)
    unfolding send item_at
    send-IsCounted xs ys b' h e =
        let t = item_at dec b key in
        let more = record t { process = t.process + 1 } in
        record {
          cap = ground (arith, h.cap);
          max = ground (arith, h.max);
          items = λ k. ground (
            arith,
            h.items k,
            h.items key,
            h.cap,
            count-append waiting k (key, waiting) xs ys,
            count-append entered k (key, waiting) xs ys,
            count-append running k (key, waiting) xs ys,
            count-append waiting k (key, entered) xs ys,
            count-append entered k (key, entered) xs ys,
            count-append running k (key, entered) xs ys,
            Assoc.get-put dec key k more b.storage,
          );
        }

    settle-IsCounted :
        (xs ys : List (K × Stage))
        → IsCounted capacity size b (xs ++ (key, entered) ∷ ys)
        → IsCounted capacity size (settle dec b key) (xs ++ (key, running) ∷ ys)
    unfolding settle item_at
    settle-IsCounted xs ys h =
        let t = item_at dec b key in
        let less = record t { queue_count = t.queue_count - 1 } in
        record {
          cap = ground (arith, h.cap);
          max = ground (arith, h.max);
          items = λ k. ground (
            arith,
            h.items k,
            h.items key,
            h.cap,
            count-append waiting k (key, entered) xs ys,
            count-append entered k (key, entered) xs ys,
            count-append running k (key, entered) xs ys,
            count-append waiting k (key, running) xs ys,
            count-append entered k (key, running) xs ys,
            count-append running k (key, running) xs ys,
            Assoc.get-put dec key k less b.storage,
            count-append entered key (key, entered) xs ys,
          );
        }

    put-IsCounted :
        (xs ys : List (K × Stage)) (b' : ConcurrentQueue K)
        → IsCounted capacity size b (xs ++ (key, running) ∷ ys)
        → put dec b key ≡ some b'
        → IsCounted capacity size b' (xs ++ ys)
    unfolding put item_at
    put-IsCounted xs ys b' h e =
        let t = item_at dec b key in
        let less = record t { process = t.process - 1; process_count = t.process_count - 1 } in
        record {
          cap = ground (arith, h.cap);
          max = ground (arith, h.max);
          items = λ k. ground (
            arith,
            h.items k,
            h.items key,
            h.cap,
            count-append waiting k (key, running) xs ys,
            count-append entered k (key, running) xs ys,
            count-append running k (key, running) xs ys,
            Assoc.get-put dec key k less b.storage,
            Assoc.get-delete dec key k (Assoc.put dec key less b.storage),
            count-append running key (key, running) xs ys,
          );
        }

  -- However the requests interleave, at most the capacity of each key are past the channel and at most
  -- the size are counted and not yet running, and the counts of the key's item are those of its
  -- requests.
  pub Reachable-IsCounted :
      {capacity size : ℕ} {b : ConcurrentQueue K} {ts : List (K × Stage)}
      → Reachable capacity size b ts
      → IsCounted capacity size b ts
  unfolding new count item_at Assoc.get
  Reachable-IsCounted fresh = record {
    cap = refl;
    max = refl;
    items = λ k. record {
      tokens = refl;
      queue_full = refl;
      all = refl;
      within = omega arith;
      queue_within = omega arith;
    };
  }
  Reachable-IsCounted {capacity} {size} (queued {b} {ts} key r ok) =
      subst
        (λ (c : Bool).
          IsCounted capacity size (queue dec b key).0 (if c then (key, waiting) ∷ ts else ts))
        ok (queue-IsCounted b key ts (Reachable-IsCounted r))
  Reachable-IsCounted {capacity} {size} (refused {b} {ts} key r full) =
      subst
        (λ (c : Bool).
          IsCounted capacity size (queue dec b key).0 (if c then (key, waiting) ∷ ts else ts))
        full (queue-IsCounted b key ts (Reachable-IsCounted r))
  Reachable-IsCounted (sent {b} {b'} key xs ys r e) =
      send-IsCounted b key xs ys b' (Reachable-IsCounted r) e
  Reachable-IsCounted (settled {b} key xs ys r) =
      settle-IsCounted b key xs ys (Reachable-IsCounted r)
  Reachable-IsCounted (finished {b} {b'} key xs ys r e) =
      put-IsCounted b key xs ys b' (Reachable-IsCounted r) e

  -- A request that finishes never blocks on the channel, with the lock held; one that waits goes
  -- through whenever fewer than the capacity of its key are past the channel.
  pub never_stuck :
      {capacity size : ℕ} {b : ConcurrentQueue K} (key : K) (s : Stage) (xs ys : List (K × Stage))
      → Reachable capacity size b (xs ++ (key, s) ∷ ys)
      → (s ≡ running → put dec b key ≢ none)
        × (s ≡ waiting
            → count entered key (xs ++ (key, s) ∷ ys) + count running key (xs ++ (key, s) ∷ ys)
              < capacity
            → send dec b key ≢ none)
  unfolding put send item_at
  never_stuck {b} key s xs ys r =
      let h = Reachable-IsCounted r in
      (
        λ at stuck. ground (arith, h.items key, count-append running key (key, s) xs ys),
        λ at room stuck.
            ground (arith, h.items key, h.cap, count-append waiting key (key, s) xs ys),
      )
