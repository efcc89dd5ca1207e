-- ===== src/Cache/Lru.antt =====
-- pkg/cache/lru.go. `ll` lists the items from the back, the least recently used, to the front; the
-- map `items` from keys to list elements is the search of that list for the key. Sizes are natural
-- numbers.
pub mod Order
pub mod Eviction
use parapet.Prelude.{
  ℕ, ◌+◌, ◌-◌, List, [], ◌∷◌, ◌++◌, Option, none, some, Bool, ltb, if◌then◌else◌, ite,
}

pub record Item (K : Type 0) : Type 0 where
  pub key : K
  pub size : ℕ

pub record Lru (K : Type 0) : Type 0 where
  pub ll : List (Item K)
  pub max : ℕ
  pub cur : ℕ

unfoldable pub new_lru : {K : Type 0} → ℕ → Lru K
new_lru max = record { ll = []; max = max; cur = 0 }

-- The loop that evicts from the back until the cap holds or nothing is left: the items that stay,
-- their total, and the keys that went, oldest first.
unfoldable pub evict : {K : Type 0} → ℕ → ℕ → List (Item K) → List (Item K) × ℕ × List K
evict max cur [] = ([], cur, [])
evict max cur (it ∷ ll) =
    let (kept, left, evicted) = evict max (cur - it.size) ll in
    if ltb max cur then (kept, left, it.key ∷ evicted) else (it ∷ ll, cur, [])

module _ {K : Type 0} (dec : Discrete K) where
  -- `items[key]`: the size of the element, if there is one.
  unfoldable pub find : K → List (Item K) → Option ℕ
  find k [] = none
  find k (it ∷ ll) = ite (dec it.key k) (some it.size) (find k ll)

  -- `ll.Remove(el)` with `delete(items, key)`.
  unfoldable pub drop_key : K → List (Item K) → List (Item K)
  drop_key k [] = []
  drop_key k (it ∷ ll) = ite (dec it.key k) ll (it ∷ drop_key k ll)

  abbrev push_front : K → ℕ → List (Item K) → List (Item K)
  push_front k size ll = ll ++ record { key = k; size = size } ∷ []

  -- `remove`.
  unfoldable pub remove : Lru K → K → Lru K
  unfolding find drop_key
  remove l k = elim (find k l.ll) [
    | none ↦ l
    | some size ↦ record l { ll = drop_key k l.ll; cur = l.cur - size }
  ]

  -- The insertion or the update, with the element at the front.
  unfoldable pub enter : Lru K → K → ℕ → Lru K
  unfolding find drop_key
  enter l k size = elim (find k l.ll) [
    | none ↦ record l { ll = push_front k size l.ll; cur = l.cur + size }
    | some old ↦ record l { ll = push_front k size (drop_key k l.ll); cur = l.cur + size - old }
  ]

  unfoldable pub admit : Lru K → K → ℕ → Lru K × List K
  unfolding remove enter evict
  admit l k size =
      if ltb l.max size
      then (remove l k, k ∷ [])
      else (let l' = enter l k size in
          let (kept, left, evicted) = evict l'.max l'.cur l'.ll in
          (record l' { ll = kept; cur = left }, evicted))

  -- `MoveToFront` on a hit.
  unfoldable pub touch : Lru K → K → Lru K
  unfolding find drop_key
  touch l k = elim (find k l.ll) [
    | none ↦ l
    | some size ↦ record l { ll = push_front k size (drop_key k l.ll) }
  ]
