-- ===== src/Host/Parents.antt =====
-- The hosts that a request's host falls under.
use parapet.Prelude.{
  ℕ, zero, suc, ◌≤◌, ◌≡◌, ◌↔◌, ◌⊎◌, refl, sym, ap, subst, List, [], ◌∷◌, ◌++◌, some, true, false,
  ◌||◌, ◌==◌, length, length-append, arith, Bool-cases, Option-cases, inl, inr,
}
use mathlib.Core.Option.{some-injective}
use parapet.GoStrings.{Text, contains_byte}
use parapet.Host.{listed, cut_label, wildcard, matches}

-- Behind a label and its dot, or behind several; no label is empty.
pub data Parent (p : Text) : Text → Type 0 where
  label : (c : ℕ) (l : Text) → contains_byte b'.' (c ∷ l) ≡ false → Parent p ((c ∷ l) ++ b'.' ∷ p)
  deeper :
      (c : ℕ) (l rest : Text)
      → contains_byte b'.' (c ∷ l) ≡ false
      → Parent p rest
      → Parent p ((c ∷ l) ++ b'.' ∷ rest)

abbrev pub wildcard_of : Text → Text
wildcard_of p = b'*' ∷ b'.' ∷ p

cut_label-append :
    (l rest : Text) → contains_byte b'.' l ≡ false → cut_label (l ++ b'.' ∷ rest) ≡ some (l, rest)
unfolding cut_label contains_byte
cut_label-append [] rest h = refl
cut_label-append (c ∷ l) rest h = ground (arith, cut_label-append l rest (ground arith))

-- A host that is cut is the label, a dot and the rest.
cut_label-parts :
    (h l rest : Text)
    → cut_label h ≡ some (l, rest)
    → (h ≡ l ++ b'.' ∷ rest) × (contains_byte b'.' l ≡ false)
unfolding cut_label contains_byte
cut_label-parts [] l rest e = absurd (cc)
cut_label-parts (c ∷ s) l rest e = elim (Bool-cases (c == b'.')) [
  | inl dot ↦
      let pair : ([], s) ≡ (l, rest) = some-injective _ _ (ground arith) in
      subst (λ (q : Text × Text). (c ∷ s ≡ q.0 ++ b'.' ∷ q.1) × (contains_byte b'.' q.0 ≡ false))
        pair (ground arith, refl)
  | inr other ↦ elim (Option-cases (cut_label s)) [
    | inl gone ↦ absurd (ground arith)
    | inr ((l', rest'), found) ↦
        let parts = cut_label-parts s l' rest' found in
        let pair : (c ∷ l', rest') ≡ (l, rest) = some-injective _ _ (ground arith) in
        subst (λ (q : Text × Text). (c ∷ s ≡ q.0 ++ b'.' ∷ q.1) × (contains_byte b'.' q.0 ≡ false))
          pair (ap (λ (x : Text). c ∷ x) parts.0, ground arith)
  ]
]

wildcard-cut :
    (fuel : ℕ) (hosts : List Text) (h : Text) (c : ℕ) (l rest : Text)
    → cut_label h ≡ some (c ∷ l, rest)
    → wildcard (suc fuel) hosts h ≡ (listed (wildcard_of rest) hosts || wildcard fuel hosts rest)
unfolding wildcard
wildcard-cut fuel hosts h c l rest e = ground arith

wildcard_sound :
    (fuel : ℕ) (hosts : List Text) (h : Text)
    → wildcard fuel hosts h ≡ true
    → (p : Text) × Parent p h × (listed (wildcard_of p) hosts ≡ true)
unfolding wildcard
wildcard_sound zero hosts h e = absurd (cc)
wildcard_sound (suc fuel) hosts h e = elim (Option-cases (cut_label h)) [
  | inl gone ↦ absurd (ground arith)
  | inr (([], rest), found) ↦ absurd (ground arith)
  | inr ((c ∷ l, rest), found) ↦
      let parts = cut_label-parts h (c ∷ l) rest found in
      elim (Bool-cases (listed (wildcard_of rest) hosts)) [
        | inl here ↦
            (rest, subst (λ (x : Text). Parent rest x) (sym parts.0) (label c l parts.1), here)
        | inr below ↦
            let (p, under, there) = wildcard_sound fuel hosts rest (ground arith) in
            (
              p,
              subst (λ (x : Text). Parent p x) (sym parts.0) (deeper c l rest parts.1 under),
              there,
            )
      ]
]

wildcard_complete :
    (fuel : ℕ) (hosts : List Text) (p h : Text)
    → Parent p h
    → length h ≤ fuel
    → listed (wildcard_of p) hosts ≡ true
    → wildcard fuel hosts h ≡ true
wildcard_complete zero hosts p h (label c l plain) small there = absurd (omega arith)
wildcard_complete zero hosts p h (deeper c l rest plain under) small there = absurd (omega arith)
wildcard_complete (suc fuel) hosts p h (label c l plain) small there =
    ground (
      arith,
      wildcard-cut fuel hosts ((c ∷ l) ++ b'.' ∷ p) c l p (cut_label-append (c ∷ l) p plain),
    )
wildcard_complete (suc fuel) hosts p h (deeper c l rest plain under) small there =
    let found =
      wildcard-cut fuel hosts ((c ∷ l) ++ b'.' ∷ rest) c l rest
        (cut_label-append (c ∷ l) rest plain) in
    let below =
      wildcard_complete fuel hosts p rest under (omega (arith, length-append l (b'.' ∷ rest)))
        there in
    ground (arith, found, below)

-- A host matches exactly when it is listed or the wildcard of one of its parents is, however many labels
-- it has: the loop is not left early.
pub matches_iff :
    (hosts : List Text) (h : Text)
    → (matches hosts h ≡ true) ↔ (
        (listed h hosts ≡ true) ⊎ ((p : Text) × Parent p h × (listed (wildcard_of p) hosts ≡ true)))
unfolding matches
matches_iff hosts h = (only, back)
  where
    only :
        matches hosts h ≡ true
        → (listed h hosts ≡ true)
          ⊎ ((p : Text) × Parent p h × (listed (wildcard_of p) hosts ≡ true))
    only e = elim (Bool-cases (listed h hosts)) [
      | inl here ↦ inl here
      | inr gone ↦ inr (wildcard_sound (length h) hosts h (ground arith))
    ]

    back :
        (listed h hosts ≡ true) ⊎ ((p : Text) × Parent p h × (listed (wildcard_of p) hosts ≡ true))
        → matches hosts h ≡ true
    back (inl here) = ground arith
    back (inr (p, under, there)) =
        ground (arith, wildcard_complete (length h) hosts p h under (omega arith) there)
