-- ===== src/Upstream/Weighted/Winner.antt =====
-- Which target the loops of `pick` end up with.
use parapet.Prelude.{
  ℕ, ℕ_discrete, ◌+◌, ◌%◌, ◌≡◌, ◌≤◌, ◌<◌, ◌≢◌, refl, List, [], ◌∷◌, Option, none, some, Bool, true,
  false, arith, length, Bool-cases, inl, ◌∙◌, ◌⊎◌, suc, inr, if◌then◌else◌,
}
use parapet.GoInt64.{less, modulus}
use parapet.Upstream.Weighted.{Peer, Best, bumped, better, sweep, bump_all}

better-cases :
    (i current : ℕ) (best : Option Best)
    → (better i current best ≡ best)
      ⊎ (better i current best ≡ some (record { idx = i; current = current }))
unfolding better
better-cases i current none = inr refl
better-cases i current (some b) = elim (Bool-cases (less b.current current)) [
  | inl e ↦ inr (ground arith)
  | inr e ↦ inl (ground arith)
]

better_some : (i current : ℕ) (best : Option Best) → better i current best ≢ none
unfolding better
better_some i current none = λ e. cc
better_some i current (some b) = λ e. ground arith

-- Where the loop ends up with a best peer: the one from before, or one that is up in the list.
abbrev pub Found : (ℕ → Bool) → ℕ → ℕ → Option Best → Type 0
Found is_up i n o = (b : Best) × (o ≡ some b) × (i ≤ b.idx) × (b.idx < i + n) × (is_up b.idx ≡ true)

next_best :
    (is_up : ℕ → Bool) (i n current : ℕ) (best : Option Best)
    → ((if is_up i then better i current best else best) ≡ best)
      ⊎ Found is_up i (suc n) (if is_up i then better i current best else best)
next_best is_up i n current best = elim (Bool-cases (is_up i)) [
  | inr e ↦ inl (ground arith)
  | inl e ↦ elim (better-cases i current best) [
    | inl same ↦ inl (ground arith)
    | inr new ↦
        inr (record { idx = i; current = current }, ground arith, omega arith, omega arith, e)
  ]
]

pub sweep_best :
    (is_up : ℕ → Bool) (i : ℕ) (ps : List Peer) (best : Option Best) (live : ℕ)
    → ((sweep is_up i ps best live).best ≡ best)
      ⊎ Found is_up i (length ps) (sweep is_up i ps best live).best
unfolding sweep
sweep_best is_up i [] best live = inl refl
sweep_best is_up i (p ∷ ps) best live =
    let b : Option Best = if is_up i then better i (bumped (is_up i) p) best else best in
    let v : ℕ = if is_up i then (live + p.weight) % modulus else live in
    elim (sweep_best is_up (i + 1) ps b v) [
      | inr (w, e, lo, hi, ok) ↦ inr (w, e, omega arith, omega arith, ok)
      | inl same ↦ elim (next_best is_up i (length ps) (bumped (is_up i) p) best) [
        | inl kept ↦ inl (same ∙ kept)
        | inr (w, e, lo, hi, ok) ↦ inr (w, same ∙ e, lo, hi, ok)
      ]
    ]

-- Without a best peer there was none up, and no weight was given.
pub record IsDark (is_up : ℕ → Bool) (i n : ℕ) (live given : ℕ) : Type 0 where
  pub none_given : given ≡ live
  pub down : (j : ℕ) → i ≤ j → j < i + n → is_up j ≡ false

pub sweep-none :
    (is_up : ℕ → Bool) (i : ℕ) (ps : List Peer) (best : Option Best) (live : ℕ)
    → (sweep is_up i ps best live).best ≡ none
    → IsDark is_up i (length ps) live (sweep is_up i ps best live).live
unfolding sweep better
sweep-none is_up i [] best live h = record {
  none_given = refl;
  down = λ j p q. absurd (omega arith);
}
sweep-none is_up i (p ∷ ps) best live h =
    let b : Option Best = if is_up i then better i (bumped (is_up i) p) best else best in
    let v : ℕ = if is_up i then (live + p.weight) % modulus else live in
    elim (sweep_best is_up (i + 1) ps b v) [
      | inr (w, e, _, _, _) ↦ absurd (cc)
      | inl same ↦
          let rest = sweep-none is_up (i + 1) ps b v h in
          let here : is_up i ≡ false = ground (arith, better_some i (bumped (is_up i) p) best) in
          record {
            none_given = ground arith;
            down = λ j p q. elim (ℕ_discrete i j) [
              | yes e ↦ rw⁻¹ e here
              | no ne ↦ rest.down j (omega arith) (omega arith)
            ];
          }
    ]

-- The loop over all finds a peer if there is any.
pub bump_all_best :
    (i : ℕ) (ps : List Peer) (best : Option Best)
    → ((bump_all i ps best).1 ≡ best) ⊎ Found (λ _. true) i (length ps) (bump_all i ps best).1
unfolding bump_all
bump_all_best i [] best = inl refl
bump_all_best i (p ∷ ps) best =
    let current : ℕ = (p.current + p.weight) % modulus in
    elim (bump_all_best (i + 1) ps (better i current best)) [
      | inr (w, e, lo, hi, ok) ↦ inr (w, e, omega arith, omega arith, ok)
      | inl same ↦ elim (next_best (λ _. true) i (length ps) current best) [
        | inl kept ↦ inl (same ∙ kept)
        | inr (w, e, lo, hi, ok) ↦ inr (w, same ∙ e, lo, hi, ok)
      ]
    ]
