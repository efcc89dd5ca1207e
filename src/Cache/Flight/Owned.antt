-- ===== src/Cache/Flight/Owned.antt =====
-- What holds of the locks and of those that close them, and the moves that touch neither.
use parapet.Prelude.{
  ℕ, ◌<◌, ◌≡◌, ◌≢◌, ◌⊎◌, sym, ap, ◌∙◌, inl, inr, Option, none, some, true, false, ℕ_discrete,
}
use parapet.Prelude.Assoc
use mathlib.Core.Option.{some-injective}
use parapet.GoStrings.{Text, Text-discrete}
use parapet.Cache.Flight.{Table, Pc, leading, closing, waiting}

-- The lock that a request has still to close.
abbrev pub owned : Pc → Option ℕ
owned (leading key id) = some id
owned (closing id) = some id
owned _ = none

abbrev pub lock_of : Text → Table → Option ℕ
lock_of key t = Assoc.get Text-discrete key t.locks

-- Closed, or to be closed by a request.
abbrev pub Coming : Table → (ℕ → Pc) → ℕ → Type 0
Coming t pc id = (t.closed id ≡ true) ⊎ ((j : ℕ) × (owned (pc j) ≡ some id))

pub record IsSingle (t : Table) (pc : ℕ → Pc) : Type 0 where
  -- a leader's lock is the one of the map, and each lock of the map has its leader
  pub held : (i : ℕ) (key : Text) (id : ℕ) → pc i ≡ leading key id → lock_of key t ≡ some id
  pub led : (key : Text) (id : ℕ) → lock_of key t ≡ some id → (i : ℕ) × (pc i ≡ leading key id)
  -- no lock is closed twice
  pub sole : (i j id : ℕ) → owned (pc i) ≡ some id → owned (pc j) ≡ some id → i ≡ j
  pub unclosed : (i id : ℕ) → owned (pc i) ≡ some id → t.closed id ≡ false
  pub below : (i id : ℕ) → owned (pc i) ≡ some id → id < t.made
  pub past : (id : ℕ) → t.closed id ≡ true → id < t.made
  -- a lock that is waited for is closed or will be
  pub awaited :
      (i attempt : ℕ) (key : Text) (id : ℕ) → pc i ≡ waiting attempt key id → Coming t pc id

pub none-ne_some : {x : Option ℕ} {id : ℕ} → x ≡ none → x ≡ some id → ⊥
none-ne_some a b = absurd (cc)

pub some_eq : {x : Option ℕ} {a b : ℕ} → x ≡ some a → x ≡ some b → a ≡ b
some_eq {x} {a} {b} e f = some-injective a b (sym e ∙ f)

-- A move of one request leaves the others where they are.
module _ (i : ℕ) (pc pc' : ℕ → Pc) (rest : (j : ℕ) → i ≢ j → pc' j ≡ pc j) where
  -- A request that closes nothing before it moves takes no lock from the others.
  pub owned_on : owned (pc i) ≡ none → (j id : ℕ) → owned (pc j) ≡ some id → owned (pc' j) ≡ some id
  owned_on before j id h = elim (ℕ_discrete i j) [
    | yes same ↦ absurd (none-ne_some (sym (ap (λ (x : ℕ). owned (pc x)) same) ∙ before) h)
    | no other ↦ ap owned (rest j other) ∙ h
  ]

  pub still_due : owned (pc i) ≡ none → (t : Table) (id : ℕ) → Coming t pc id → Coming t pc' id
  still_due before t id (inl is) = inl is
  still_due before t id (inr (j, own)) = inr (j, owned_on before j id own)

  pub led_on :
      (j : ℕ) (key : Text) (id : ℕ)
      → pc j ≡ leading key id
      → pc i ≢ leading key id
      → pc' j ≡ leading key id
  led_on j key id h ne = elim (ℕ_discrete i j) [
    | yes same ↦ absurd (ne (ap pc same ∙ h))
    | no other ↦ rest j other ∙ h
  ]

  -- And one that closes nothing after it gives none.
  pub owned_back :
      owned (pc' i) ≡ none → (j id : ℕ) → owned (pc' j) ≡ some id → owned (pc j) ≡ some id
  owned_back after j id h = elim (ℕ_discrete i j) [
    | yes same ↦ absurd (none-ne_some (sym (ap (λ (x : ℕ). owned (pc' x)) same) ∙ after) h)
    | no other ↦ ap owned (sym (rest j other)) ∙ h
  ]

  pub back : (j : ℕ) (p : Pc) → pc' j ≡ p → pc' i ≢ p → pc j ≡ p
  back j p h ne = elim (ℕ_discrete i j) [
    | yes same ↦ absurd (ne (ap pc' same ∙ h))
    | no other ↦ sym (rest j other) ∙ h
  ]

pub unowned_ne : {p : Pc} (key : Text) (id : ℕ) → owned p ≡ none → p ≢ leading key id
unowned_ne key id e f = none-ne_some e (ap owned f)

-- A move of a request that has no lock to close, neither before nor after.
pub quiet-IsSingle :
    (t : Table) (i : ℕ) (pc pc' : ℕ → Pc)
    → ((j : ℕ) → i ≢ j → pc' j ≡ pc j)
    → owned (pc i) ≡ none
    → owned (pc' i) ≡ none
    → ((attempt : ℕ) (key : Text) (id : ℕ) → pc' i ≡ waiting attempt key id → Coming t pc id)
    → IsSingle t pc
    → IsSingle t pc'
quiet-IsSingle t i pc pc' rest before after wait h = record {
  held = λ j key id e.
      h.held j key id (back i pc pc' rest j (leading key id) e (unowned_ne key id after));
  led = λ key id e.
      let (j, is) = h.led key id e in
      (j, led_on i pc pc' rest j key id is (unowned_ne key id before));
  sole = λ j k id a b.
      h.sole j k id (owned_back i pc pc' rest after j id a) (owned_back i pc pc' rest after k id b);
  unclosed = λ j id a. h.unclosed j id (owned_back i pc pc' rest after j id a);
  below = λ j id a. h.below j id (owned_back i pc pc' rest after j id a);
  past = h.past;
  awaited = λ j attempt key id e. still_due i pc pc' rest before t id (elim (ℕ_discrete i j) [
    | yes same ↦ wait attempt key id (ap pc' same ∙ e)
    | no other ↦ h.awaited j attempt key id (sym (rest j other) ∙ e)
  ]);
}
