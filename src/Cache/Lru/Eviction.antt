-- ===== src/Cache/Lru/Eviction.antt =====
-- What `admit` evicts: the least recently used items, no more of them than the cap asks for.
use parapet.Prelude.{
  ℕ, ◌+◌, ◌-◌, ◌≤◌, ◌<◌, ◌≡◌, refl, sym, ap, List, [], ◌∷◌, ◌++◌, map, none, some, Bool, true,
  false, if◌then◌else◌, ite, arith, length, length-append, dec_lt,
}
use parapet.Cache.Lru.{Item, Lru, find, drop_key, evict, admit}
use parapet.Cache.Lru.Order.{
  total, total-append, IsDistinct, IsValid, find-drop_key, find-append, drop_key-IsDistinct,
  total-drop_key-le, remove_lem, enter_lem, push-IsDistinct,
}

abbrev pub keys : {K : Type 0} → List (Item K) → List K
keys = map (λ it. it.key)

-- The key is one of the keys.
unfoldable pub has : {K : Type 0} → Discrete K → K → List K → Bool
has dec k [] = false
has dec k (x ∷ xs) = ite (dec x k) true (has dec k xs)

module _ {K : Type 0} (max : ℕ) where
  -- The loop ends within the cap, with the exact total, and what went and what stays make up the
  -- list: the keys that went are those at the back, oldest first.
  pub evict_lem :
      (cur : ℕ) (ll : List (Item K))
      → cur ≡ total ll
      → let (kept, left, evicted) = evict max cur ll in
        (left ≡ total kept) × (left ≤ max) × (evicted ++ keys kept ≡ keys ll)
  unfolding evict total
  evict_lem cur [] e = (omega arith, omega arith, refl)
  evict_lem cur (it ∷ ll) e = ground (arith, evict_lem (cur - it.size) ll)

  -- What stays is the longest run of recently used items that fits.
  pub evict_longest :
      (cur : ℕ) (ll xs ys : List (Item K))
      → cur ≡ total ll
      → ll ≡ xs ++ ys
      → total ys ≤ max
      → length ys ≤ length (evict max cur ll).0
  unfolding evict total
  evict_longest cur [] [] ys e p h = ground arith
  evict_longest cur [] (x ∷ xs) ys e p h = cc
  evict_longest cur (it ∷ ll) [] ys e p h = ground (arith, ap total p)
  evict_longest cur (it ∷ ll) (x ∷ xs) ys e p h =
      ground (arith, evict_longest (cur - it.size) ll xs ys, length-append xs ys, ap length p)

module _ {K : Type 0} (dec : Discrete K) (max : ℕ) where
  evict-IsDistinct :
      (cur : ℕ) (ll : List (Item K)) → IsDistinct dec ll → IsDistinct dec (evict max cur ll).0
  unfolding evict
  evict-IsDistinct cur [] d = tt
  evict-IsDistinct cur (it ∷ ll) d = ground (arith, evict-IsDistinct (cur - it.size) ll d.1)

  find-evict-none :
      (cur : ℕ) (ll : List (Item K)) (j : K)
      → find dec j ll ≡ none
      → find dec j (evict max cur ll).0 ≡ none
  unfolding evict find
  find-evict-none cur [] j e = refl
  find-evict-none cur (it ∷ ll) j e = ground (arith, find-evict-none (cur - it.size) ll j)

  -- A key that is asked for afterwards is where it was, unless it is among those that went.
  find-evict :
      (cur : ℕ) (ll : List (Item K)) (j : K)
      → IsDistinct dec ll
      → find dec j (evict max cur ll).0
        ≡ (if has dec j (evict max cur ll).2 then none else find dec j ll)
  unfolding evict find has
  find-evict cur [] j d = refl
  find-evict cur (it ∷ ll) j d =
      ground
        (arith, find-evict (cur - it.size) ll j d.1, find-evict-none (cur - it.size) ll it.key d.0)

  -- The item at the front stays, if it fits at all.
  find-evict_front :
      (cur size : ℕ) (k : K) (ll : List (Item K))
      → cur ≡ total (ll ++ record { key = k; size = size } ∷ [])
      → find dec k ll ≡ none
      → size ≤ max
      → find dec k (evict max cur (ll ++ record { key = k; size = size } ∷ [])).0 ≡ some size
  unfolding evict find total
  find-evict_front cur size k [] e n h = ground arith
  find-evict_front cur size k (it ∷ ll) e n h = ground (
    arith,
    find-evict_front (cur - it.size) size k ll,
    find-append dec k ll (record { key = k; size = size } ∷ []),
  )

-- What `admit` works on, once the item stands at the front.
abbrev pub entered : {K : Type 0} → Discrete K → Lru K → K → ℕ → List (Item K)
entered dec l k size = drop_key dec k l.ll ++ record { key = k; size = size } ∷ []

module _ {K : Type 0} (dec : Discrete K) (l : Lru K) (v : IsValid dec l) (k : K) (size : ℕ) where
  entered_facts :
      (total (entered dec l k size) ≡ total (drop_key dec k l.ll) + size)
      × IsDistinct dec (entered dec l k size)
      × (find dec k (drop_key dec k l.ll) ≡ none)
  unfolding total
  entered_facts =
      let absent : find dec k (drop_key dec k l.ll) ≡ none =
        ground (arith, find-drop_key dec k k l.ll v.distinct) in
      (
        ground (arith, total-append (drop_key dec k l.ll) (record { key = k; size = size } ∷ [])),
        push-IsDistinct dec k size (drop_key dec k l.ll) (drop_key-IsDistinct dec k l.ll v.distinct)
            absent,
        absent,
      )

  admit_fits :
      size ≤ l.max
      → let (kept, left, evicted) =
          evict l.max (total (drop_key dec k l.ll) + size) (entered dec l k size) in
        admit dec l k size ≡ (record l { ll = kept; cur = left }, evicted)
  unfolding admit
  admit_fits h = ground (arith, enter_lem dec l k size v)

  -- An item that fits is stored, at the front, and the oldest items go, no more of them than the
  -- cap asks for: what stays is the longest run of recently used items within it.
  pub admit_stores :
      size ≤ l.max
      → (find dec k (admit dec l k size).0.ll ≡ some size)
        × ((admit dec l k size).1 ++ keys (admit dec l k size).0.ll ≡ keys (entered dec l k size))
        × (total (admit dec l k size).0.ll ≤ l.max)
        × ((xs ys : List (Item K))
            → entered dec l k size ≡ xs ++ ys
            → total ys ≤ l.max
            → length ys ≤ length (admit dec l k size).0.ll)
  admit_stores h =
      let (sum, distinct, absent) = entered_facts in
      let cur : ℕ = total (drop_key dec k l.ll) + size in
      rw (admit_fits h) (
        find-evict_front dec l.max cur size k (drop_key dec k l.ll) (sym sum) absent h,
        (evict_lem l.max cur (entered dec l k size) (sym sum)).2,
        omega (
          arith,
          (evict_lem l.max cur (entered dec l k size) (sym sum)).0,
          (evict_lem l.max cur (entered dec l k size) (sym sum)).1,
        ),
        λ xs ys p b. evict_longest l.max cur (entered dec l k size) xs ys (sym sum) p b,
      )

  -- An item above the cap is refused: it is its own victim, an earlier version of it goes, and
  -- nothing else moves.
  pub admit_refuses :
      l.max < size
      → admit dec l k size
        ≡ (record l { ll = drop_key dec k l.ll; cur = total (drop_key dec k l.ll) }, k ∷ [])
  unfolding admit
  admit_refuses h = ground (arith, remove_lem dec l k v)

  -- Either way the total stays exact and within the cap, and no key stands twice.
  pub admit-IsValid : IsValid dec (admit dec l k size).0
  admit-IsValid = elim (dec_lt l.max size) [
    | yes over ↦ rw (admit_refuses over) (record {
      exact = refl;
      within = omega (arith, total-drop_key-le dec k l.ll, v.exact, v.within);
      distinct = drop_key-IsDistinct dec k l.ll v.distinct;
    })
    | no fits ↦
        let (sum, distinct, absent) = entered_facts in
        let cur : ℕ = total (drop_key dec k l.ll) + size in
        let ended = evict_lem l.max cur (entered dec l k size) (sym sum) in
        rw (admit_fits (omega arith)) (record {
          exact = ended.0;
          within = ended.1;
          distinct = evict-IsDistinct dec l.max cur (entered dec l k size) distinct;
        })
  ]

  -- Every key is where it was, but for the victims, which are gone, and for the item itself.
  pub find-admit :
      (j : K)
      → find dec j (admit dec l k size).0.ll ≡ (
          if has dec j (admit dec l k size).1
          then none
          else ite (dec k j) (some size) (find dec j l.ll))
  unfolding find has
  find-admit j = elim (dec_lt l.max size) [
    | yes over ↦ rw (admit_refuses over) (ground (arith, find-drop_key dec k j l.ll v.distinct))
    | no fits ↦
        let (sum, distinct, absent) = entered_facts in
        let cur : ℕ = total (drop_key dec k l.ll) + size in
        rw (admit_fits (omega arith)) (
          ground (
            arith,
            find-evict dec l.max cur (entered dec l k size) j distinct,
            find-append dec j (drop_key dec k l.ll) (record { key = k; size = size } ∷ []),
            find-drop_key dec k j l.ll v.distinct,
          ))
  ]
