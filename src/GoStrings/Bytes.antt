-- ===== src/GoStrings/Bytes.antt =====
-- What holds of every byte of a text holds of every byte of the host in it.
use parapet.Prelude.{
  ℕ, ◌≡◌, ◌⊎◌, ◌∙◌, [], ◌∷◌, none, some, Bool, true, false, ◌==◌, if◌then◌else◌, All, arith,
  Bool-cases, inl, inr, subst, sym, Option-cases,
}
use mathlib.Core.Option.{some-injective}
use parapet.GoStrings.{Text, before_byte, lower, to_lower}
use parapet.GoStrings.HostPort.{cut_last, split_host_port, norm_host}

some-ne_none : (s : Text) → ¬ (some s ≡ none)
some-ne_none s e = absurd (cc)

split_nothing : (host : Text) → ¬ (split_host_port [] ≡ some host)
unfolding split_host_port
split_nothing host e = absurd (cc)

pub if-holds : (P : Text → Type 0) (b : Bool) (x y : Text) → P x → P y → P (if b then x else y)
if-holds P true x y hx hy = hx
if-holds P false x y hx hy = hy

before_byte-All : (P : ℕ → Type 0) (c : ℕ) (s : Text) → All P s → All P (before_byte c s)
unfolding before_byte
before_byte-All P c [] h = tt
before_byte-All P c (d ∷ s) h =
    if-holds (All P) (d == c) [] (d ∷ before_byte c s) tt (h.0, before_byte-All P c s h.1)

cut_last-All :
    (P : ℕ → Type 0) (c : ℕ) (s before after : Text)
    → cut_last c s ≡ some (before, after)
    → All P s
    → All P before
unfolding cut_last
cut_last-All P c [] before after e h = absurd (cc)
cut_last-All P c (d ∷ s) before after e h = elim (Option-cases (cut_last c s)) [
  | inl gone ↦ elim (Bool-cases (d == c)) [
    | inl here ↦ let same : [] ≡ before = ground arith in subst (All P) same tt
    | inr other ↦ absurd (ground arith)
  ]
  | inr ((x, y), found) ↦
      let same : d ∷ x ≡ before = ground arith in
      subst (All P) same (h.0, cut_last-All P c s x y found h.1)
]

-- The host that is split off stands in front of the last colon or in brackets.
split_cases :
    (c : ℕ) (s before port : Text)
    → cut_last b':' (c ∷ s) ≡ some (before, port)
    → (split_host_port (c ∷ s) ≡ none)
      ⊎ (split_host_port (c ∷ s) ≡ some (before_byte b']' s))
      ⊎ (split_host_port (c ∷ s) ≡ some before)
unfolding split_host_port
split_cases c s before port found = ground arith

no_split : (c : ℕ) (s : Text) → cut_last b':' (c ∷ s) ≡ none → split_host_port (c ∷ s) ≡ none
unfolding split_host_port
no_split c s e = ground arith

pub split_host_port-All :
    (P : ℕ → Type 0) (s host : Text) → split_host_port s ≡ some host → All P s → All P host
split_host_port-All P [] host e h = absurd (split_nothing host e)
split_host_port-All P (c ∷ s) host e h = elim (Option-cases (cut_last b':' (c ∷ s))) [
  | inl gone ↦ absurd (some-ne_none host (sym e ∙ no_split c s gone))
  | inr ((before, port), found) ↦ elim (split_cases c s before port found) [
    | inl refused ↦ absurd (some-ne_none host (sym e ∙ refused))
    | inr (inl inside) ↦
        subst (All P) (some-injective _ _ (sym inside ∙ e)) (before_byte-All P b']' s h.1)
    | inr (inr front) ↦
        subst (All P) (some-injective _ _ (sym front ∙ e))
          (cut_last-All P b':' (c ∷ s) before port found h)
  ]
]

-- Lowering gives no new control byte.
to_lower-All :
    (P : ℕ → Type 0) → ((c : ℕ) → P c → P (lower c)) → (s : Text) → All P s → All P (to_lower s)
unfolding to_lower
to_lower-All P keeps [] h = tt
to_lower-All P keeps (c ∷ s) h = (keeps c h.0, to_lower-All P keeps s h.1)

norm_cases :
    (host : Text)
    → (norm_host host ≡ to_lower host) ⊎ (split_host_port (to_lower host) ≡ some (norm_host host))
unfolding norm_host
norm_cases host = elim (Option-cases (split_host_port (to_lower host))) [
  | inl whole ↦ inl (ground arith)
  | inr (h, found) ↦ inr (ground arith)
]

pub norm_host-All :
    (P : ℕ → Type 0)
    → ((c : ℕ) → P c → P (lower c))
    → (host : Text) → All P host
    → All P (norm_host host)
norm_host-All P keeps host h =
    let low = to_lower-All P keeps host h in
    elim (norm_cases host) [
      | inl whole ↦ subst (All P) (sym whole) low
      | inr found ↦ split_host_port-All P (to_lower host) (norm_host host) found low
    ]
