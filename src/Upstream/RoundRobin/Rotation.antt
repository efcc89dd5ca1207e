-- ===== src/Upstream/RoundRobin/Rotation.antt =====
-- The rotation of a round-robin scan: which targets it looks at, and what it finds.
use parapet.Prelude.{
  ℕ, zero, suc, ◌+◌, ◌-◌, ◌*◌, ◌/◌, ◌%◌, ◌^◌, ◌≤◌, ◌<◌, ◌≡◌, ◌≢◌, ◌∙◌, ap, sym, subst, none, some,
  Bool, true, arith, dec_le, inl, inr, Option-cases,
}
use parapet.Upstream.Gate.{index_at}
use parapet.Upstream.RoundRobin.{first_from, pick_where}

mod-add-mul : (q n i : ℕ) → i < n → (q * n + i) % n ≡ i
mod-add-mul q n i h = grind arith

turn_mod : (start n i j w : ℕ) → i < n → j + start % n ≡ i + w * n → (start + j) % n ≡ i
turn_mod start n i j w h e =
    ap (λ (t : ℕ). t % n) (omega (arith, split)) ∙ mod-add-mul (start / n + w) n i h
  where
    split : start ≡ start / n * n + start % n
    split = omega arith

-- The round of a scan from `start` that looks at index i.
pub turn : (start n i : ℕ) → i < n → (j : ℕ) × (j < n) × ((start + j) % n ≡ i)
turn start n i h = elim (dec_le (start % n) i) [
  | yes p ↦ (i - start % n, omega arith, turn_mod start n i (i - start % n) 0 h (omega arith))
  | no p ↦
      (i + n - start % n, omega arith, turn_mod start n i (i + n - start % n) 1 h (omega arith))
]

module _ (eligible : ℕ → Bool) (start n : ℕ) where
  pub first_from_sound :
      (rounds k i : ℕ)
      → 0 < n
      → first_from eligible rounds start k n ≡ some i
      → (eligible i ≡ true) × (i < n)
  unfolding first_from
  first_from_sound zero k i p h = absurd (cc)
  first_from_sound (suc rounds) k i p h = ground (arith, first_from_sound rounds (k + 1) i p)

  pub first_from_complete :
      (rounds k j : ℕ)
      → j < rounds
      → eligible (index_at start (k + j) n) ≡ true
      → first_from eligible rounds start k n ≢ none
  unfolding first_from
  first_from_complete zero k j p h = absurd (omega arith)
  first_from_complete (suc rounds) k zero p h =
      let here : eligible (index_at start k n) ≡ true =
        subst (λ (m : ℕ). eligible (index_at start m n) ≡ true) (omega arith) h in
      ground (arith, here)
  first_from_complete (suc rounds) k (suc j) p h =
      let later : eligible (index_at start (k + 1 + j) n) ≡ true =
        subst (λ (m : ℕ). eligible (index_at start m n) ≡ true) (omega arith) h in
      ground (arith, first_from_complete rounds (k + 1) j (omega arith) later)

  -- The pick is always one of the targets, also where none is eligible and it falls open.
  pub pick_where-lt : 0 < n → pick_where eligible start n < n
  unfolding pick_where
  pick_where-lt p = elim (Option-cases (first_from eligible n start 0 n)) [
    | inl e ↦ rw (e, pick_where) (omega arith)
    | inr (i, e) ↦ rw (e, pick_where) (first_from_sound n 0 i p e).1
  ]

  -- While the cursor is not about to wrap, the pick is eligible if any target is.
  pub pick_where-eligible :
      (i : ℕ)
      → start + n ≤ 2 ^ 32
      → i < n
      → eligible i ≡ true
      → eligible (pick_where eligible start n) ≡ true
  unfolding pick_where
  pick_where-eligible i w p h =
      let (j, below, at) = turn start n i p in
      let seen : eligible (index_at start (0 + j) n) ≡ true =
        subst (λ (m : ℕ). eligible m ≡ true) (sym (ap (λ (t : ℕ). t % n) (omega arith) ∙ at)) h in
      elim (Option-cases (first_from eligible n start 0 n)) [
        | inl e ↦ absurd (first_from_complete n 0 j below seen e)
        | inr (k, e) ↦ rw (e, pick_where) (first_from_sound n 0 k (omega arith) e).0
      ]

-- n picks in a row, from a cursor that is not about to wrap, reach every one of n targets if all are
-- eligible.
pub pick_where-covers :
    (eligible : ℕ → Bool) (start n i : ℕ)
    → ((k : ℕ) → eligible k ≡ true)
    → start + n ≤ 2 ^ 32
    → i < n
    → (j : ℕ) × (j < n) × (pick_where eligible (start + j) n ≡ i)
unfolding pick_where first_from
pick_where-covers eligible start zero i all w p = absurd (omega arith)
pick_where-covers eligible start (suc n) i all w p =
    let (j, below, at) = turn start (suc n) i p in
    let idx : ℕ = index_at (start + j) 0 (suc n) in
    let same : idx ≡ i = ap (λ (t : ℕ). t % suc n) (omega arith) ∙ at in
    (j, below, ground (arith, all idx, same))
