-- ===== src/RateLimit/ConcurrentQueue.antt =====
-- pkg/ratelimit/concurrentqueue.go. `Take` is three steps, since it lets go of the lock around the send
-- to the channel `Process`: `queue` up to the verdict, `send`, and `settle`. `none` is a step that
-- blocks. A request keeps its item between the steps by the counts: none is deleted while they stand.
pub mod Runs
use parapet.Prelude.{
  ℕ, ◌+◌, ◌-◌, List, [], Option, none, some, Bool, true, false, ◌&&◌, ◌==◌, ltb, leb, if◌then◌else◌,
}
use parapet.Prelude.Assoc

-- `process` is the number of tokens in the channel.
pub record QueueItem : Type 0 where
  pub process : ℕ
  pub process_count : ℕ
  pub queue_count : ℕ

pub record ConcurrentQueue (K : Type 0) : Type 0 where
  pub storage : List (K × QueueItem)
  pub capacity : ℕ
  pub size : ℕ

unfoldable pub new : {K : Type 0} → ℕ → ℕ → ConcurrentQueue K
new capacity size = record { storage = []; capacity = capacity; size = size }

module _ {K : Type 0} (dec : Discrete K) where
  unfoldable pub item_at : ConcurrentQueue K → K → QueueItem
  item_at b key = elim (Assoc.get dec key b.storage) [
    | none ↦ record { process = 0; process_count = 0; queue_count = 0 }
    | some t ↦ t
  ]

  unfoldable pub queue : ConcurrentQueue K → K → ConcurrentQueue K × Bool
  unfolding item_at
  queue b key =
      let t = item_at b key in
      if leb b.size t.queue_count
      then (record b { storage = Assoc.put dec key t b.storage }, false)
      else (
        record b {
          storage =
              Assoc.put dec key
                (record t { process_count = t.process_count + 1; queue_count = t.queue_count + 1 })
                b.storage;
        },
        true,
      )

  -- The channel holds `Capacity` tokens; a full one blocks.
  unfoldable pub send : ConcurrentQueue K → K → Option (ConcurrentQueue K)
  send b key = elim (Assoc.get dec key b.storage) [
    | none ↦ none
    | some t ↦
        if leb b.capacity t.process
        then none
        else some (record b {
          storage = Assoc.put dec key (record t { process = t.process + 1 }) b.storage;
        })
  ]

  unfoldable pub settle : ConcurrentQueue K → K → ConcurrentQueue K
  settle b key = elim (Assoc.get dec key b.storage) [
    | none ↦ b
    | some t ↦ record b {
      storage = Assoc.put dec key (record t { queue_count = t.queue_count - 1 }) b.storage;
    }
  ]

  -- A receive from an empty channel blocks, with the lock held.
  unfoldable pub put : ConcurrentQueue K → K → Option (ConcurrentQueue K)
  put b key = elim (Assoc.get dec key b.storage) [
    | none ↦ some b
    | some t ↦
        if t.process == 0
        then none
        else (let t' = record t { process = t.process - 1; process_count = t.process_count - 1 } in
            some (record b {
              storage =
                  if leb t'.process_count 0 && leb t'.queue_count 0
                  then Assoc.delete dec key (Assoc.put dec key t' b.storage)
                  else Assoc.put dec key t' b.storage;
            }))
  ]

  unfoldable pub after : ConcurrentQueue K → K → ℕ
  after b key = 0
