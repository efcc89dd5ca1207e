-- ===== src/RateLimit/LeakyBucket/Slots.antt =====
-- The slots that `Take` gives the requests of a key, and what each step leaves of the next one.
use parapet.Prelude.{
  if_neg, leb→le, Bool-cases, ℕ, ◌+◌, ◌-◌, if◌then◌else◌, ◌≤◌, ◌≡◌, ◌⊎◌, refl, List, [], ◌∷◌,
  Option, none, some, leb, ite, arith, inl, inr, Option-cases,
}
use parapet.Prelude.Assoc
use parapet.RateLimit.LeakyBucket.{
  LeakyItem, LeakyBucket, Verdict, refused, granted, queued, admit, item_at, take, wake, is_stale,
  keys_of, evict_keys, evict_stale, sweep_interval,
}

-- What happens to the strategy: a take or the end of a sleep, or a sweep.
pub data Op (K : Type 0) : Type 0 where
  taken : K → Op K
  woken : K → Op K
  swept : Op K

-- The slot of a granted request: the time from which `Take` lets it go. `time.Sleep` sleeps at least
-- as long as it is told, so a queued request starts at its slot or later.
abbrev pub slots : ℕ → Verdict → Option ℕ
slots now refused = none
slots now granted = some now
slots now (queued d) = some (now + d)

-- Each slot keeps its distance from the one before.
abbrev pub Spaced : ℕ → ℕ → List ℕ → Type 0
Spaced per floor [] = Unit {0}
Spaced per floor (x ∷ xs) = (floor ≤ x) × Spaced per (x + per) xs

-- Starts that are each at their slot or later.
abbrev pub IsLate : List ℕ → List ℕ → Type 0
IsLate [] [] = Unit {0}
IsLate (slot ∷ ss) (start ∷ xs) = (slot ≤ start) × IsLate ss xs
IsLate _ _ = ⊥

-- How many start by a time.
abbrev pub started_by : ℕ → List ℕ → ℕ
started_by t [] = 0
started_by t (x ∷ xs) = if leb x t then started_by t xs + 1 else started_by t xs

abbrev pub note : Option ℕ → List ℕ → List ℕ
note none xs = xs
note (some x) xs = x ∷ xs

-- The clock does not run backward.
abbrev pub IsOrdered : {K : Type 0} → ℕ → List (ℕ × Op K) → Type 0
IsOrdered t [] = Unit {0}
IsOrdered t ((now, op) ∷ ops) = (t ≤ now) × IsOrdered now ops

module _ {K : Type 0} (dec : Discrete K) where
  unfoldable pub step : LeakyBucket K → ℕ → Op K → LeakyBucket K × Option (K × Verdict)
  step b now (taken k) = ((take dec b now k).0, some (k, (take dec b now k).1))
  step b now (woken k) = (wake dec b k, none)
  step b now swept = ((evict_stale dec b now (sweep_interval b)).0, none)

  -- The slot that the step gives a request of the key.
  abbrev pub slot_of : K → ℕ → Option (K × Verdict) → Option ℕ
  slot_of key now none = none
  slot_of key now (some (k, v)) = ite (dec k key) (slots now v) none

  -- The slots of the key's granted requests, oldest first.
  unfoldable pub run_slots : K → LeakyBucket K → List (ℕ × Op K) → List ℕ
  unfolding step
  run_slots key b [] = []
  run_slots key b ((now, op) ∷ ops) =
      note (slot_of key now (step b now op).1) (run_slots key (step b now op).0 ops)

  -- The earliest slot that the item of a key leaves.
  abbrev free_of : ℕ → Option LeakyItem → ℕ
  free_of per none = 0
  free_of per (some t) = elim t.last [ none ↦ 0 | some l ↦ l + per ]

  unfoldable pub free_at : LeakyBucket K → K → ℕ
  free_at b key = free_of b.per_request (Assoc.get dec key b.storage)

  -- A step without a slot of the key leaves its earliest slot, or one that has passed; a slot is
  -- no earlier than that, and puts the next one `PerRequest` later.
  abbrev pub IsKept : ℕ → ℕ → ℕ → ℕ → Option ℕ → Type 0
  IsKept now per before later none = (before ≤ later) ⊎ (before ≤ now)
  IsKept now per before later (some x) = (now ≤ x) × (before ≤ x) × (later ≡ x + per)

  admit-IsKept :
      (per size now : ℕ) (t : LeakyItem)
      → IsKept now per
          (free_of per (some t))
          (free_of per (some (admit per size now t).0))
          (slots now (admit per size now t).1)
  unfolding admit
  admit-IsKept per size now t = elim (Option-cases t.last) [
    | inl e ↦ rw e (omega arith, omega arith, refl)
    | inr (l, e) ↦ elim (Bool-cases (leb (l + per) now)) [
      | inl due ↦ rw (e, due) (omega arith, leb→le (l + per) now due, refl)
      | inr early ↦ elim (Bool-cases (leb size t.count)) [
        | inl full ↦ rw (e, early, full) (inl (omega arith))
        | inr room ↦ rw (e, early, room) (omega arith, ground arith, ground arith)
      ]
    ]
  ]

  free_item :
      (b : LeakyBucket K) (k : K) → free_of b.per_request (some (item_at dec b k)) ≡ free_at b k
  unfolding item_at free_at
  free_item b k = ground arith

  take-IsKept :
      (b : LeakyBucket K) (now : ℕ) (k key : K)
      → IsKept now b.per_request
          (free_at b key)
          (free_at (take dec b now k).0 key)
          (slot_of key now (some (k, (take dec b now k).1)))
  unfolding take free_at
  take-IsKept b now k key = elim (dec k key) [
    | yes e ↦
        let (t, verdict) = admit b.per_request b.size now (item_at dec b k) in
        let here : ite (dec k k) (slots now verdict) none ≡ slots now verdict = ground arith in
        let kept = admit-IsKept b.per_request b.size now (item_at dec b k) in
        rw (← e, here, Assoc.get-put_self dec k t b.storage, ← free_item b k) kept
    | no n ↦ rw (if_neg _ n) (
        inl (
          ground (
            arith,
            Assoc.get-put_ne dec k key (admit b.per_request b.size now (item_at dec b k)).0
                b.storage n,
          )))
  ]

  free_at-wake : (b : LeakyBucket K) (k key : K) → free_at (wake dec b k) key ≡ free_at b key
  unfolding wake free_at
  free_at-wake b k key = elim (Option-cases (Assoc.get dec k b.storage)) [
    | inl e ↦ ground arith
    | inr (t, e) ↦
        ground (arith, Assoc.get-put dec k key (record t { count = t.count - 1 }) b.storage)
  ]

  -- A sweep takes an item only when a slot at the time of the sweep would keep its distance.
  evict_keys_lem :
      (per max_age now : ℕ) (ks : List K) (m : List (K × LeakyItem)) (key : K)
      → per ≤ max_age
      → (Assoc.get dec key (evict_keys dec max_age now ks m) ≡ Assoc.get dec key m)
        ⊎ (free_of per (Assoc.get dec key m) ≤ now)
  unfolding evict_keys is_stale
  evict_keys_lem per max_age now [] m key h = inl refl
  evict_keys_lem per max_age now (k ∷ ks) m key h = elim (Option-cases (Assoc.get dec k m)) [
    | inl e ↦ rw e (evict_keys_lem per max_age now ks m key h)
    | inr (t, e) ↦ ground (
      arith,
      evict_keys_lem per max_age now ks m key h,
      evict_keys_lem per max_age now ks (Assoc.delete dec k m) key h,
      Assoc.get-delete dec k key m,
    )
  ]

  pub step-IsKept :
      (b : LeakyBucket K) (now : ℕ) (op : Op K) (key : K)
      → b.per_request ≤ sweep_interval b
      → let (b', out) = step b now op in
        IsKept now b.per_request (free_at b key) (free_at b' key) (slot_of key now out)
        × (b'.per_request ≡ b.per_request)
        × (b'.sweep_every ≡ b.sweep_every)
  unfolding step take wake evict_stale free_at
  step-IsKept b now (taken k) key h = (take-IsKept b now k key, ground arith, ground arith)
  step-IsKept b now (woken k) key h =
      (inl (ground (arith, free_at-wake b k key)), ground arith, ground arith)
  step-IsKept b now swept key h = (
    ground (
      arith,
      evict_keys_lem b.per_request (sweep_interval b) now (keys_of b.storage) b.storage key h,
    ),
    refl,
    refl,
  )
