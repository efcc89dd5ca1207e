-- ===== src/RateLimit/LeakyBucket.antt =====
-- pkg/ratelimit/leakybucket.go. Times are nanoseconds and the clock's reading is an argument. `Take`
-- is two steps around its sleep, since it lets go of the lock there: `take` up to the verdict, and
-- `wake` after the sleep.
pub mod Slots
pub mod Spacing
pub mod After
use parapet.Prelude.{
  ℕ, ◌+◌, ◌-◌, List, [], ◌∷◌, Option, none, some, Bool, true, false, ◌&&◌, ◌==◌, ltb, leb,
  if◌then◌else◌,
}
use parapet.Prelude.Assoc

-- `last` is `none` for the zero time.
pub record LeakyItem : Type 0 where
  pub last : Option ℕ
  pub count : ℕ

pub record LeakyBucket (K : Type 0) : Type 0 where
  pub storage : List (K × LeakyItem)
  pub cleanup_running : Bool
  pub sweep_every : ℕ
  pub per_request : ℕ
  pub size : ℕ

unfoldable pub new : {K : Type 0} → ℕ → ℕ → LeakyBucket K
new per_request size = record {
  storage = [];
  cleanup_running = false;
  sweep_every = 0;
  per_request = per_request;
  size = size;
}

-- What `Take` comes to: refused, granted at once, or granted after a sleep.
pub data Verdict : Type 0 where
  refused : Verdict
  granted : Verdict
  queued : ℕ → Verdict

-- The tests on one item: the item afterwards, and the verdict.
unfoldable pub admit : ℕ → ℕ → ℕ → LeakyItem → LeakyItem × Verdict
admit per_request size now t = elim t.last [
  | none ↦ (record t { last = some now }, granted)
  | some l ↦
      if leb (l + per_request) now
      then (record t { last = some now }, granted)
      else if leb size t.count
      then (t, refused)
      else (
        record t { last = some (l + per_request); count = t.count + 1 },
        queued (l + per_request - now),
      )
]

-- The interval of `cleanupLoop`'s sweeps: the longer of a minute and `PerRequest` and a second.
unfoldable pub sweep_interval : {K : Type 0} → LeakyBucket K → ℕ
sweep_interval b =
    if b.sweep_every == 0
    then (if ltb (b.per_request + 1000000000) 60000000000
        then 60000000000
        else b.per_request + 1000000000)
    else b.sweep_every

-- `t.Count <= 0 && t.Last.Before(deleteBefore)`, with `deleteBefore` the age before now.
unfoldable pub is_stale : ℕ → ℕ → LeakyItem → Bool
is_stale max_age now t =
    t.count == 0 && elim t.last [ none ↦ true | some l ↦ ltb (l + max_age) now ]

abbrev pub keys_of : {K : Type 0} → List (K × LeakyItem) → List K
keys_of [] = []
keys_of ((k, t) ∷ m) = k ∷ keys_of m

abbrev is_empty : {K : Type 0} → List (K × LeakyItem) → Bool
is_empty [] = true
is_empty (x ∷ m) = false

module _ {K : Type 0} (dec : Discrete K) where
  -- The item of a key, which `Take` makes if it is not there.
  unfoldable pub item_at : LeakyBucket K → K → LeakyItem
  item_at b key = elim (Assoc.get dec key b.storage) [
    | none ↦ record { last = none; count = 0 }
    | some t ↦ t
  ]

  unfoldable pub take : LeakyBucket K → ℕ → K → LeakyBucket K × Verdict
  unfolding item_at admit
  take b now key =
      let (t, verdict) = admit b.per_request b.size now (item_at b key) in
      (record b { storage = Assoc.put dec key t b.storage; cleanup_running = true }, verdict)

  -- After the sleep. The item is the one that `take` queued in: it has a waiter, so no sweep took it.
  unfoldable pub wake : LeakyBucket K → K → LeakyBucket K
  wake b key = elim (Assoc.get dec key b.storage) [
    | none ↦ b
    | some t ↦ record b { storage = Assoc.put dec key (record t { count = t.count - 1 }) b.storage }
  ]

  unfoldable pub after : LeakyBucket K → ℕ → K → ℕ
  after b now key = elim (Assoc.get dec key b.storage) [
    | none ↦ 0
    | some t ↦ elim t.last [
      | none ↦ 0
      | some l ↦ if ltb (l + b.per_request) now then 0 else l + b.per_request - now
    ]
  ]

  -- The loop of `evictStale` over the keys of the map.
  unfoldable pub evict_keys : ℕ → ℕ → List K → List (K × LeakyItem) → List (K × LeakyItem)
  unfolding is_stale
  evict_keys max_age now [] m = m
  evict_keys max_age now (k ∷ ks) m = evict_keys max_age now ks (elim (Assoc.get dec k m) [
    | none ↦ m
    | some t ↦ if is_stale max_age now t then Assoc.delete dec k m else m
  ])

  unfoldable pub evict_stale : LeakyBucket K → ℕ → ℕ → LeakyBucket K × Bool
  unfolding evict_keys
  evict_stale b now max_age =
      let m = evict_keys max_age now (keys_of b.storage) b.storage in
      (
        record b { storage = m; cleanup_running = if is_empty m then false else b.cleanup_running },
        is_empty m,
      )
