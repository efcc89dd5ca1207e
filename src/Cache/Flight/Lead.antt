-- ===== src/Cache/Flight/Lead.antt =====
-- A request that finds no lock makes one and leads.
use parapet.Prelude.{
  ℕ, ◌+◌, ◌<◌, ◌≡◌, ◌≢◌, ◌⊎◌, sym, ap, ◌∙◌, inl, inr, none, some, false, arith, ℕ_discrete, ite,
  Bool-cases,
}
use parapet.Prelude.Assoc
use parapet.GoStrings.{Text, Text-discrete}
use parapet.Cache.Flight.{Table, acquire, Pc, asking, leading, waiting}
use parapet.Cache.Flight.Owned.{
  owned, lock_of, Coming, IsSingle, none-ne_some, some_eq, unowned_ne, still_due, led_on, back,
}

-- The lock that is made for a key that has none.
lock_of-lead :
    (t : Table) (key k : Text)
    → lock_of key t ≡ none
    → lock_of k (acquire key t).0 ≡ ite (Text-discrete key k) (some t.made) (lock_of k t)
unfolding acquire
lock_of-lead t key k e = ground (arith, Assoc.get-put Text-discrete key k t.made t.locks)

lead-made : (t : Table) (key : Text) → lock_of key t ≡ none → (acquire key t).0.made ≡ t.made + 1
unfolding acquire
lead-made t key e = ground arith

lead-closed :
    (t : Table) (key : Text) (id : ℕ)
    → lock_of key t ≡ none
    → (acquire key t).0.closed id ≡ t.closed id
unfolding acquire
lead-closed t key id e = ground arith

fresh_open : (t : Table) (pc : ℕ → Pc) → IsSingle t pc → t.closed t.made ≡ false
fresh_open t pc h = elim (Bool-cases (t.closed t.made)) [
  | inl shut_already ↦ absurd (omega (arith, h.past t.made shut_already))
  | inr is ↦ is
]

-- A request comes to lead.
module _ (t : Table) (i attempt : ℕ) (key : Text) (pc pc' : ℕ → Pc)
    (rest : (j : ℕ) → i ≢ j → pc' j ≡ pc j) (was : pc i ≡ asking attempt)
    (is : pc' i ≡ leading key t.made) (free : lock_of key t ≡ none) (h : IsSingle t pc) where
  owners :
      (j id : ℕ)
      → owned (pc' j) ≡ some id
      → ((i ≡ j) × (t.made ≡ id)) ⊎ ((owned (pc j) ≡ some id) × (id < t.made))
  owners j id e = elim (ℕ_discrete i j) [
    | yes same ↦ inl (same, some_eq (ap owned is) (ap (λ (x : ℕ). owned (pc' x)) same ∙ e))
    | no other ↦
        let own : owned (pc j) ≡ some id = ap owned (sym (rest j other)) ∙ e in
        inr (own, h.below j id own)
  ]

  lead-held :
      (j : ℕ) (k : Text) (id : ℕ) → pc' j ≡ leading k id → lock_of k (acquire key t).0 ≡ some id
  lead-held j k id e = elim (ℕ_discrete i j) [
    | yes same ↦
        let eq : leading key t.made ≡ leading k id = sym is ∙ ap pc' same ∙ e in
        ground (arith, lock_of-lead t key k free)
    | no other ↦ ground (arith, lock_of-lead t key k free, h.held j k id (sym (rest j other) ∙ e))
  ]

  lead-led :
      (k : Text) (id : ℕ) → lock_of k (acquire key t).0 ≡ some id → (j : ℕ) × (pc' j ≡ leading k id)
  lead-led k id e = elim (Text-discrete key k) [
    | yes same ↦
        let eq : t.made ≡ id = ground (arith, lock_of-lead t key k free) in
        (i, is ∙ ap (leading key) eq ∙ ap (λ (x : Text). leading x id) same)
    | no other ↦
        let there : lock_of k t ≡ some id = ground (arith, lock_of-lead t key k free) in
        let (j, leads) = h.led k id there in
        (j, led_on i pc pc' rest j k id leads (unowned_ne k id (ap owned was)))
  ]

  lead-sole : (j k id : ℕ) → owned (pc' j) ≡ some id → owned (pc' k) ≡ some id → j ≡ k
  lead-sole j k id a b = elim (owners j id a) [
    | inl (mine, new_id) ↦ elim (owners k id b) [
      | inl (also, _) ↦ omega arith
      | inr (_, old) ↦ absurd (omega arith)
    ]
    | inr (own, old) ↦ elim (owners k id b) [
      | inl (_, new_id) ↦ absurd (omega arith)
      | inr (other, _) ↦ h.sole j k id own other
    ]
  ]

  lead-unclosed : (j id : ℕ) → owned (pc' j) ≡ some id → t.closed id ≡ false
  lead-unclosed j id a = elim (owners j id a) [
    | inl (mine, new_id) ↦ ap t.closed (sym new_id) ∙ fresh_open t pc h
    | inr (own, old) ↦ h.unclosed j id own
  ]

  lead-awaited :
      (j a : ℕ) (k : Text) (id : ℕ) → pc' j ≡ waiting a k id → Coming (acquire key t).0 pc' id
  lead-awaited j a k id e =
      let was_waiting : pc j ≡ waiting a k id =
        back i pc pc' rest j (waiting a k id) e (λ f. none-ne_some (ap owned f) (ap owned is)) in
      elim (still_due i pc pc' rest (ap owned was) t id (h.awaited j a k id was_waiting)) [
        | inl done ↦ inl (lead-closed t key id free ∙ done)
        | inr owner ↦ inr owner
      ]

  pub lead-IsSingle : IsSingle (acquire key t).0 pc'
  lead-IsSingle = record {
    held = lead-held;
    led = lead-led;
    sole = lead-sole;
    unclosed = λ j id a. lead-closed t key id free ∙ lead-unclosed j id a;
    below = λ j id a. elim (owners j id a) [
      | inl (mine, new_id) ↦ omega (arith, lead-made t key free)
      | inr (own, old) ↦ omega (arith, lead-made t key free)
    ];
    past = λ id c.
        omega (arith, lead-made t key free, h.past id (sym (lead-closed t key id free) ∙ c));
    awaited = lead-awaited;
  }
