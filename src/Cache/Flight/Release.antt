-- ===== src/Cache/Flight/Release.antt =====
-- A leader takes its lock out of the map and closes it.
use parapet.Prelude.{ℕ, ◌≡◌, ◌≢◌, refl, sym, ap, ◌∙◌, inl, inr, none, some, arith, ℕ_discrete, ite}
use parapet.Prelude.Assoc
use parapet.GoStrings.{Text, Text-discrete}
use parapet.Cache.Flight.{Table, forget, close, Pc, leading, closing, waiting, served}
use parapet.Cache.Flight.Owned.{
  owned, lock_of, IsSingle, none-ne_some, some_eq, led_on, owned_back, back,
}

closing_leads : {id m : ℕ} {k : Text} → closing id ≡ leading k m → ⊥
closing_leads e = absurd (cc)

closing_waits : {id a m : ℕ} {k : Text} → closing id ≡ waiting a k m → ⊥
closing_waits e = absurd (cc)

served_waits : {a m : ℕ} {k : Text} → served ≡ waiting a k m → ⊥
served_waits e = absurd (cc)

key_of : {id m : ℕ} {key k : Text} → leading key id ≡ leading k m → key ≡ k
key_of e = cc

lock_of-forget :
    (t : Table) (key k : Text)
    → lock_of k (forget key t) ≡ ite (Text-discrete key k) none (lock_of k t)
unfolding forget
lock_of-forget t key k = Assoc.get-delete Text-discrete key k t.locks

forget_keeps :
    (t : Table) (key : Text) → ((forget key t).made ≡ t.made) × ((forget key t).closed ≡ t.closed)
unfolding forget
forget_keeps t key = (refl, refl)

-- A leader takes its lock out of the map.
module _ (t : Table) (i : ℕ) (key : Text) (id : ℕ) (pc pc' : ℕ → Pc)
    (rest : (j : ℕ) → i ≢ j → pc' j ≡ pc j) (was : pc i ≡ leading key id) (is : pc' i ≡ closing id)
    (h : IsSingle t pc) where
  owned_same : (j : ℕ) → owned (pc' j) ≡ owned (pc j)
  owned_same j = elim (ℕ_discrete i j) [
    | yes same ↦
        ap (λ (x : ℕ). owned (pc' x)) (sym same)
        ∙ ap owned is
        ∙ sym (ap owned was)
        ∙ ap (λ (x : ℕ). owned (pc x)) same
    | no other ↦ ap owned (rest j other)
  ]

  forget-held : (j : ℕ) (k : Text) (m : ℕ) → pc' j ≡ leading k m → lock_of k (forget key t) ≡ some m
  forget-held j k m e =
      let led : pc j ≡ leading k m =
        back i pc pc' rest j (leading k m) e (λ f. closing_leads (sym is ∙ f)) in
      elim (Text-discrete key k) [
        | yes same ↦
            let there : lock_of key t ≡ some id = h.held i key id was in
            let also : lock_of key t ≡ some m =
              ap (λ (x : Text). lock_of x t) same ∙ h.held j k m led in
            let one : i ≡ j =
              h.sole i j m (ap owned was ∙ ap some (some_eq there also)) (ap owned led) in
            absurd (closing_leads (sym is ∙ ap pc' one ∙ e))
        | no other ↦ ground (arith, lock_of-forget t key k, h.held j k m led)
      ]

  forget-led :
      (k : Text) (m : ℕ) → lock_of k (forget key t) ≡ some m → (j : ℕ) × (pc' j ≡ leading k m)
  forget-led k m e = elim (Text-discrete key k) [
    | yes same ↦ absurd (ground (arith, lock_of-forget t key k))
    | no other ↦
        let there : lock_of k t ≡ some m = ground (arith, lock_of-forget t key k) in
        let (j, leads) = h.led k m there in
        (j, led_on i pc pc' rest j k m leads (λ f. other (key_of (sym was ∙ f))))
  ]

  pub forget-IsSingle : IsSingle (forget key t) pc'
  unfolding forget
  forget-IsSingle = record {
    held = forget-held;
    led = forget-led;
    sole = λ j k m a b. h.sole j k m (sym (owned_same j) ∙ a) (sym (owned_same k) ∙ b);
    unclosed = λ j m a. h.unclosed j m (sym (owned_same j) ∙ a);
    below = λ j m a. h.below j m (sym (owned_same j) ∙ a);
    past = h.past;
    awaited = λ j a k m e.
        elim (h.awaited j a k m
          (back i pc pc' rest j (waiting a k m) e (λ f. closing_waits (sym is ∙ f)))) [
            | inl done ↦ inl done
            | inr (x, own) ↦ inr (x, owned_same x ∙ own)
          ];
  }

-- And closes it.
module _ (t : Table) (i : ℕ) (id : ℕ) (pc pc' : ℕ → Pc) (rest : (j : ℕ) → i ≢ j → pc' j ≡ pc j)
    (was : pc i ≡ closing id) (is : pc' i ≡ served) (h : IsSingle t pc) where
  others : (j m : ℕ) → owned (pc' j) ≡ some m → (owned (pc j) ≡ some m) × (m ≢ id)
  others j m e =
      let own = owned_back i pc pc' rest (ap owned is) j m e in
      (
        own,
        λ same.
            let one : i ≡ j = h.sole i j id (ap owned was) (own ∙ ap some same) in
            none-ne_some (sym (ap (λ (x : ℕ). owned (pc' x)) one) ∙ ap owned is) e,
      )

  pub shut-IsSingle : IsSingle (close id t) pc'
  unfolding close
  shut-IsSingle = record {
    held = λ j k m e.
        h.held j k m
          (back i pc pc' rest j (leading k m) e (λ f. none-ne_some (ap owned is) (ap owned f)));
    led = λ k m e.
        let (j, leads) = h.led k m e in
        (j, led_on i pc pc' rest j k m leads (λ f. closing_leads (sym was ∙ f)));
    sole = λ j k m a b. h.sole j k m (others j m a).0 (others k m b).0;
    unclosed = λ j m a. let (own, other) = others j m a in ground (arith, h.unclosed j m own);
    below = λ j m a. h.below j m (others j m a).0;
    past = λ m c. elim (ℕ_discrete m id) [
      | yes same ↦ omega (arith, h.below i id (ap owned was))
      | no other ↦ h.past m (ground arith)
    ];
    awaited = λ j a k m e.
        elim (h.awaited j a k m
          (back i pc pc' rest j (waiting a k m) e (λ f. served_waits (sym is ∙ f)))) [
            | inl done ↦ inl (ground arith)
            | inr (x, own) ↦ elim (ℕ_discrete m id) [
              | yes same ↦ inl (ground arith)
              | no other ↦ inr (
                x,
                elim (ℕ_discrete i x) [
                  | yes one ↦
                      absurd
                        (other (some_eq (ap (λ (y : ℕ). owned (pc y)) one ∙ own) (ap owned was)))
                  | no apart ↦ ap owned (rest x apart) ∙ own
                ],
              )
            ]
          ];
  }
