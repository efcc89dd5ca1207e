-- ===== src/RateLimit/SlidingWindow/Sweep.antt =====
-- A sweep is not to be seen.
use parapet.Prelude.{
  ℕ, ◌/◌, ◌≤◌, ◌≡◌, ◌⊎◌, refl, ap, sym, subst, ◌∙◌, List, [], ◌∷◌, Option, none, some, true, false,
  arith, Option-cases, Bool-cases, inl, inr,
}
use parapet.Prelude.Assoc
use parapet.RateLimit.SlidingWindow.{
  SlidingItem, SlidingWindow, size, roll, fresh, keys_of, stale, item_at, evict_keys, evict_stale,
}

module _ {K : Type 0} (dec : Discrete K) where
  -- What a sweep makes of an entry: it stays, or it was stale and is gone.
  abbrev Swept : ℕ → Option SlidingItem → Option SlidingItem → Type 0
  Swept current before after =
      (after ≡ before)
      ⊎ ((after ≡ none) × (t : SlidingItem) × (before ≡ some t) × (stale current t ≡ true))

  evict_keys-kept :
      (current : ℕ) (k : K) (ks : List K) (m : List (K × SlidingItem))
      → Assoc.get dec k m ≡ none
      → evict_keys dec current (k ∷ ks) m ≡ evict_keys dec current ks m
  unfolding evict_keys
  evict_keys-kept current k ks m e = ground arith

  evict_keys-young :
      (current : ℕ) (k : K) (ks : List K) (m : List (K × SlidingItem)) (t : SlidingItem)
      → Assoc.get dec k m ≡ some t
      → stale current t ≡ false
      → evict_keys dec current (k ∷ ks) m ≡ evict_keys dec current ks m
  unfolding evict_keys
  evict_keys-young current k ks m t e young = ground arith

  evict_keys-stale :
      (current : ℕ) (k : K) (ks : List K) (m : List (K × SlidingItem)) (t : SlidingItem)
      → Assoc.get dec k m ≡ some t
      → stale current t ≡ true
      → evict_keys dec current (k ∷ ks) m ≡ evict_keys dec current ks (Assoc.delete dec k m)
  unfolding evict_keys
  evict_keys-stale current k ks m t e old = ground arith

  Swept-delete :
      (current : ℕ) (k key : K) (m : List (K × SlidingItem)) (t : SlidingItem)
      (after : Option SlidingItem)
      → Assoc.get dec k m ≡ some t
      → stale current t ≡ true
      → Swept current (Assoc.get dec key (Assoc.delete dec k m)) after
      → Swept current (Assoc.get dec key m) after
  Swept-delete current k key m t after e old h = elim (dec k key) [
    | yes same ↦
        let gone : Assoc.get dec key (Assoc.delete dec k m) ≡ none =
          ground (arith, Assoc.get-delete dec k key m) in
        let none_left : after ≡ none = elim h [ inl is ↦ is ∙ gone | inr is ↦ is.0 ] in
        inr (none_left, t, ap (λ (x : K). Assoc.get dec x m) (sym same) ∙ e, old)
    | no other ↦
        let kept : Assoc.get dec key (Assoc.delete dec k m) ≡ Assoc.get dec key m =
          ground (arith, Assoc.get-delete dec k key m) in
        subst (λ (x : Option SlidingItem). Swept current x after) kept h
  ]

  evict_keys-Swept :
      (current : ℕ) (ks : List K) (m : List (K × SlidingItem)) (key : K)
      → Swept current (Assoc.get dec key m) (Assoc.get dec key (evict_keys dec current ks m))
  evict_keys-Swept current [] m key = unfold evict_keys in inl refl
  evict_keys-Swept current (k ∷ ks) m key =
      let P : List (K × SlidingItem) → Type 0 =
        λ x. Swept current (Assoc.get dec key m) (Assoc.get dec key x) in
      let kept = evict_keys-Swept current ks m key in
      elim (Option-cases (Assoc.get dec k m)) [
        | inl e ↦ subst P (sym (evict_keys-kept current k ks m e)) kept
        | inr (t, e) ↦ elim (Bool-cases (stale current t)) [
          | inr young ↦ subst P (sym (evict_keys-young current k ks m t e young)) kept
          | inl old ↦ subst P (sym (evict_keys-stale current k ks m t e old)) (
              Swept-delete current k key m t _ e old
                (evict_keys-Swept current ks (Assoc.delete dec k m) key))
        ]
      ]

  -- An item that a sweep may take rolls to one that was never used.
  roll-stale :
      (current later : ℕ) (t : SlidingItem)
      → current ≤ later
      → stale current t ≡ true
      → roll later t ≡ roll later (fresh later)
  unfolding roll
  roll-stale current later t le old = ground arith

  pub item_at-none :
      (b : SlidingWindow K) (w : ℕ) (key : K)
      → Assoc.get dec key b.storage ≡ none
      → item_at dec b w key ≡ roll w (fresh w)
  unfolding item_at
  item_at-none b w key e = ground arith

  pub item_at-some :
      (b : SlidingWindow K) (w : ℕ) (key : K) (t : SlidingItem)
      → Assoc.get dec key b.storage ≡ some t
      → item_at dec b w key ≡ roll w t
  unfolding item_at
  item_at-some b w key t e = ground arith

  pub item_at-eq :
      (b c : SlidingWindow K) (w : ℕ) (key : K)
      → Assoc.get dec key b.storage ≡ Assoc.get dec key c.storage
      → item_at dec b w key ≡ item_at dec c w key
  unfolding item_at
  item_at-eq b c w key e = ground arith

  -- Strategies that no call of window w or a later one can tell apart.
  pub record Alike (w : ℕ) (b c : SlidingWindow K) : Type 0 where
    pub sizes : size b ≡ size c
    pub maxima : b.max ≡ c.max
    pub items :
        (later : ℕ) (key : K) → w ≤ later → item_at dec b later key ≡ item_at dec c later key

  pub evict_stale-Alike :
      (b : SlidingWindow K) (now : ℕ) → Alike (now / size b) (evict_stale dec b now).0 b
  unfolding evict_stale
  evict_stale-Alike b now =
      let current = now / size b in
      let after = (evict_stale dec b now).0 in
      record {
        sizes = unfold size in refl;
        maxima = refl;
        items = λ later key le. elim (evict_keys-Swept current (keys_of b.storage) b.storage key) [
          | inl same ↦ item_at-eq after b later key same
          | inr (gone, t, was, old) ↦
              item_at-none after later key gone
              ∙ sym (roll-stale current later t le old)
              ∙ sym (item_at-some b later key t was)
        ];
      }
