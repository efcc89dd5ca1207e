-- ===== src/Tests/Storage.antt =====
-- pkg/cache/lru.go and memory.go at small inputs: a cap of ten bytes.
use parapet.Prelude.{
  ℕ, ◌≤◌, ◌≡◌, refl, List, [], ◌∷◌, ◌++◌, none, some, false, ltb, if◌then◌else◌, arith, length,
  ℕ_discrete,
}
use parapet.Prelude.Assoc
use parapet.Cache.Storage.{Meta}
use parapet.Cache.Lru.{Item, Lru, find, admit}
use parapet.Cache.Lru.Order.{IsValid, total}
use parapet.Cache.Lru.Eviction.{keys, entered, admit_stores}
use parapet.Cache.Memory.{new_memory, Writer, get, commit, delete_data, delete_weight}
use parapet.Cache.Memory.Agreement.{Agrees, new-Agrees, commit-Agrees, get-commit}
use parapet.Cache.Memory.Race.{commit_inside_delete}

abbrev item : ℕ → ℕ → Item ℕ
item k n = record { key = k; size = n }

-- Key 1 is the least recently used.
abbrev lru : Lru ℕ
lru = record { ll = item 1 4 ∷ item 2 5 ∷ []; max = 10; cur = 9 }

lru-IsValid : IsValid ℕ_discrete lru
unfolding total find ℕ_discrete
lru-IsValid = record { exact = refl; within = omega arith; distinct = (refl, (refl, tt)) }

evicts_oldest :
    admit ℕ_discrete lru 3 3 ≡ (record lru { ll = item 2 5 ∷ item 3 3 ∷ []; cur = 8 }, 1 ∷ [])
unfolding admit ℕ_discrete
evicts_oldest = refl

admit_stores_example :
    (find ℕ_discrete 3 (admit ℕ_discrete lru 3 3).0.ll ≡ some 3)
    × ((admit ℕ_discrete lru 3 3).1 ++ keys (admit ℕ_discrete lru 3 3).0.ll
        ≡ keys (entered ℕ_discrete lru 3 3))
    × (total (admit ℕ_discrete lru 3 3).0.ll ≤ 10)
    × ((xs ys : List (Item ℕ))
        → entered ℕ_discrete lru 3 3 ≡ xs ++ ys
        → total ys ≤ 10
        → length ys ≤ length (admit ℕ_discrete lru 3 3).0.ll)
admit_stores_example = admit_stores ℕ_discrete lru lru-IsValid 3 3 (omega arith)

abbrev meta : Meta
meta = record {
  header = [];
  primary_hex = [];
  host = [];
  uri = [];
  vary = [];
  tags = [];
  created = 100;
  fresh_until = 200;
  stale_while_revalidate = 50;
  stale_if_error = 90;
  size = 2;
  status = 200;
}

abbrev full : Writer ℕ
full = record { key = 7; buf = 8 ∷ 9 ∷ []; done = false }

commit-Agrees_example : Agrees ℕ_discrete (commit ℕ_discrete (new_memory 10) full meta).0
commit-Agrees_example =
    commit-Agrees ℕ_discrete (new_memory 10) full meta (new-Agrees ℕ_discrete 10)

get-commit_example :
    (get ℕ_discrete (commit ℕ_discrete (new_memory 10) full meta).0 7).1
    ≡ (if ltb 10 2 then none else some (meta, 8 ∷ 9 ∷ []))
unfolding new_memory
get-commit_example = get-commit ℕ_discrete (new_memory 10) full meta (new-Agrees ℕ_discrete 10) refl

commit_inside_delete_example :
    let t =
      delete_weight ℕ_discrete
        (commit ℕ_discrete (delete_data ℕ_discrete (new_memory 10) 7) full meta).0
        7 in
    (Assoc.get ℕ_discrete 7 t.m ≡ some (record { body = 8 ∷ 9 ∷ []; meta = meta }))
    × (find ℕ_discrete 7 t.lru.ll ≡ none)
unfolding new_memory
commit_inside_delete_example =
    commit_inside_delete ℕ_discrete (new_memory 10) full meta (new-Agrees ℕ_discrete 10).valid refl
      (omega arith)
