-- ===== src/Cache/Memory.antt =====
-- pkg/cache/memory.go. The copies that `cloneMeta` makes are the values themselves here.
pub mod Agreement
pub mod Race
use parapet.Prelude.{ℕ, List, [], ◌∷◌, ◌++◌, Option, none, some, Bool, true, false, if◌then◌else◌}
use parapet.Prelude.Assoc
use parapet.Cache.Storage.{Meta}
use parapet.Cache.Lru
use parapet.Cache.Lru.{Lru, new_lru}

pub record Entry : Type 0 where
  pub body : List ℕ
  pub meta : Meta

pub record MemoryStorage (K : Type 0) : Type 0 where
  pub m : List (K × Entry)
  pub lru : Lru K

unfoldable pub new_memory : {K : Type 0} → ℕ → MemoryStorage K
unfolding new_lru
new_memory max = record { m = []; lru = new_lru max }

-- `memWriter`.
pub record Writer (K : Type 0) : Type 0 where
  pub key : K
  pub buf : List ℕ
  pub done : Bool

unfoldable pub writer : {K : Type 0} → K → Writer K
writer key = record { key = key; buf = []; done = false }

unfoldable pub write : {K : Type 0} → Writer K → List ℕ → Writer K
write w p = record w { buf = w.buf ++ p }

unfoldable pub abort : {K : Type 0} → Writer K → Writer K
abort w = if w.done then w else record w { done = true; buf = [] }

-- `Range`'s loop over the snapshot: `fn` works on a state of its own and says whether to go on.
unfoldable pub range_over : {K S : Type 0} → (K → Meta → S → S × Bool) → List (K × Entry) → S → S
range_over fn [] s = s
range_over fn ((k, e) ∷ snap) s =
    let (s', more) = fn k e.meta s in elim more [ true ↦ range_over fn snap s' | false ↦ s' ]

module _ {K : Type 0} (dec : Discrete K) where
  unfoldable pub get : MemoryStorage K → K → MemoryStorage K × Option (Meta × List ℕ)
  get s k = elim (Assoc.get dec k s.m) [
    | none ↦ (s, none)
    | some e ↦ (record s { lru = Lru.touch dec s.lru k }, some (e.meta, e.body))
  ]

  -- The two steps of `Delete`: each holds its own lock.
  unfoldable pub delete_data : MemoryStorage K → K → MemoryStorage K
  delete_data s k = record s { m = Assoc.delete dec k s.m }

  unfoldable pub delete_weight : MemoryStorage K → K → MemoryStorage K
  delete_weight s k = record s { lru = Lru.remove dec s.lru k }

  unfoldable pub delete : MemoryStorage K → K → MemoryStorage K
  unfolding delete_data delete_weight
  delete s k = delete_weight (delete_data s k) k

  -- The loop of `Commit` over the victims.
  unfoldable pub delete_all : List K → List (K × Entry) → List (K × Entry)
  delete_all [] m = m
  delete_all (k ∷ ks) m = delete_all ks (Assoc.delete dec k m)

  unfoldable pub commit : MemoryStorage K → Writer K → Meta → MemoryStorage K × Writer K
  unfolding delete_all
  commit s w meta =
      if w.done
      then (s, w)
      else (let stored = Assoc.put dec w.key (record { body = w.buf; meta = meta }) s.m in
          let (lru, victims) = Lru.admit dec s.lru w.key meta.size in
          (record { m = delete_all victims stored; lru = lru }, record w { done = true }))
