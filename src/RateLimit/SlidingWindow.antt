-- ===== src/RateLimit/SlidingWindow.antt =====
-- pkg/ratelimit/slidingwindow.go. The clock's reading, in nanoseconds since the epoch, is an argument of
-- each call, and the operations of float64 are a parameter. `take_by` is `Take` with its comparison as
-- an argument: a function of the previous window's count, the current one's, the clock, the size of a
-- window and the maximum.
use parapet.Prelude.{
  ℕ, ◌+◌, ◌-◌, ◌*◌, ◌/◌, ◌%◌, List, [], ◌∷◌, Option, none, some, Bool, true, false, ◌==◌, ltb, leb,
  ◌&&◌, ◌||◌, if◌then◌else◌,
}
use parapet.Prelude.Assoc
use parapet.GoFloat64.{Float64}
pub mod Sweep
pub mod Hidden
pub mod Cap
pub mod Wait

pub record SlidingItem : Type 0 where
  pub window : ℕ
  pub curr : ℕ
  pub prev : ℕ

-- `window_size` is the field `Size`. A nil map reads as an empty one, and `Take` makes it.
pub record SlidingWindow (K : Type 0) : Type 0 where
  pub storage : List (K × SlidingItem)
  pub cleanup_running : Bool
  pub max : ℕ
  pub window_size : ℕ

unfoldable pub new : {K : Type 0} → ℕ → ℕ → SlidingWindow K
new rate unit = record { storage = []; cleanup_running = false; max = rate; window_size = unit }

-- A second, where `Size` is not set.
unfoldable pub size : {K : Type 0} → SlidingWindow K → ℕ
size b = if b.window_size == 0 then 1000000000 else b.window_size

unfoldable pub roll : ℕ → SlidingItem → SlidingItem
roll current t =
    if leb current t.window
    then record t { window = current }
    else if current == t.window + 1
    then record { window = current; prev = t.curr; curr = 0 }
    else record { window = current; prev = 0; curr = 0 }

abbrev pub fresh : ℕ → SlidingItem
fresh current = record { window = current; curr = 0; prev = 0 }

abbrev pub keys_of : {K : Type 0} → List (K × SlidingItem) → List K
keys_of [] = []
keys_of ((k, t) ∷ m) = k ∷ keys_of m

abbrev pub is_empty : {K : Type 0} → List (K × SlidingItem) → Bool
is_empty [] = true
is_empty (x ∷ m) = false

abbrev pub stale : ℕ → SlidingItem → Bool
stale current t = ltb t.window (current - 1)

-- `prev * (1 - elapsed) + curr`.
unfoldable pub weighted_count : {F : Type 0} → Float64 F → ℕ → ℕ → ℕ → ℕ → F
weighted_count fl prev curr now size =
    let elapsed = fl.div (fl.of_int (now % size)) (fl.of_int size) in
    fl.add (fl.mul (fl.of_int prev) (fl.sub (fl.of_int 1) elapsed)) (fl.of_int curr)

-- The comparison of `Take`: `weightedCount + 1 > max`.
unfoldable pub over : {F : Type 0} → Float64 F → ℕ → ℕ → ℕ → ℕ → ℕ → Bool
unfolding weighted_count
over fl prev curr now size max =
    fl.less (fl.of_int max) (fl.add (weighted_count fl prev curr now size) (fl.of_int 1))

-- The fraction of the window at which the previous count has faded enough for one more.
abbrev target_frac : {F : Type 0} → Float64 F → ℕ → ℕ → ℕ → F
target_frac fl max prev curr =
    fl.sub (fl.of_int 1)
      (fl.div (fl.sub (fl.sub (fl.of_int max) (fl.of_int curr)) (fl.of_int 1)) (fl.of_int prev))

unfoldable pub after_at : {F : Type 0} → Float64 F → ℕ → ℕ → ℕ → ℕ → ℕ → ℕ
unfolding weighted_count
after_at fl max prev curr size now =
    let cur_frac = fl.div (fl.of_int (now % size)) (fl.of_int size) in
    let to_boundary = (now / size + 1) * size - now in
    let target = target_frac fl max prev curr in
    let next_frac =
      fl.sub (fl.of_int 1) (fl.div (fl.sub (fl.of_int max) (fl.of_int 1)) (fl.of_int curr)) in
    if fl.le (fl.add (weighted_count fl prev curr now size) (fl.of_int 1)) (fl.of_int max)
    then 0
    else if ltb 0 prev
        && leb (curr + 1) max
        && fl.less cur_frac target
        && fl.less target (fl.of_int 1)
    then fl.trunc (fl.mul (fl.sub target cur_frac) (fl.of_int size)) + 1
    else if leb (curr + 1) max || max == 0
    then to_boundary
    else to_boundary + fl.trunc (fl.mul next_frac (fl.of_int size)) + 1

module _ {K : Type 0} (dec : Discrete K) where
  -- The rolled item of a key, which `Take` makes if it is not there.
  unfoldable pub item_at : SlidingWindow K → ℕ → K → SlidingItem
  unfolding roll
  item_at b current key = elim (Assoc.get dec key b.storage) [
    | none ↦ roll current (fresh current)
    | some t ↦ roll current t
  ]

  unfoldable pub take_by :
      (ℕ → ℕ → ℕ → ℕ → ℕ → Bool) → SlidingWindow K → ℕ → K → SlidingWindow K × Bool
  unfolding item_at
  take_by exceeds b now key =
      let t = item_at b (now / size b) key in
      if exceeds t.prev t.curr now (size b) b.max
      then (record b { storage = Assoc.put dec key t b.storage; cleanup_running = true }, false)
      else (
        record b {
          storage = Assoc.put dec key (record t { curr = t.curr + 1 }) b.storage;
          cleanup_running = true;
        },
        true,
      )

  abbrev pub take : {F : Type 0} → Float64 F → SlidingWindow K → ℕ → K → SlidingWindow K × Bool
  take fl b now key = take_by (over fl) b now key

  -- `After` rolls a copy.
  unfoldable pub after : {F : Type 0} → Float64 F → SlidingWindow K → ℕ → K → ℕ
  unfolding roll after_at
  after fl b now key = elim (Assoc.get dec key b.storage) [
    | none ↦ 0
    | some t ↦
        let rolled = roll (now / size b) t in after_at fl b.max rolled.prev rolled.curr (size b) now
  ]

  -- The loop of `evictStale` over the keys of the map.
  unfoldable pub evict_keys : ℕ → List K → List (K × SlidingItem) → List (K × SlidingItem)
  evict_keys current [] m = m
  evict_keys current (k ∷ ks) m = evict_keys current ks (elim (Assoc.get dec k m) [
    | none ↦ m
    | some t ↦ if stale current t then Assoc.delete dec k m else m
  ])

  unfoldable pub evict_stale : SlidingWindow K → ℕ → SlidingWindow K × Bool
  unfolding evict_keys
  evict_stale b now =
      let m = evict_keys (now / size b) (keys_of b.storage) b.storage in
      (
        record b { storage = m; cleanup_running = if is_empty m then false else b.cleanup_running },
        is_empty m,
      )
