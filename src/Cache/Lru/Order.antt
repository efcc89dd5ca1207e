-- ===== src/Cache/Lru/Order.antt =====
-- What holds of the list between two calls: the total is exact and within the cap, and no key stands
-- twice.
use parapet.Prelude.{
  ℕ, ◌+◌, ◌≤◌, ◌≡◌, refl, List, [], ◌∷◌, ◌++◌, none, some, ite, if_pos, if_neg, arith, inl, inr,
  Option-cases,
}
use parapet.Cache.Lru.{Item, Lru, find, drop_key, remove, enter, touch}

unfoldable pub total : {K : Type 0} → List (Item K) → ℕ
total [] = 0
total (it ∷ ll) = it.size + total ll

pub total-append : {K : Type 0} (xs ys : List (Item K)) → total (xs ++ ys) ≡ total xs + total ys
unfolding total
total-append [] ys = omega arith
total-append (x ∷ xs) ys = omega (arith, total-append xs ys)

module _ {K : Type 0} (dec : Discrete K) where
  -- No key stands twice.
  abbrev pub IsDistinct : List (Item K) → Type 0
  IsDistinct [] = Unit {0}
  IsDistinct (it ∷ ll) = (find dec it.key ll ≡ none) × IsDistinct ll

  pub record IsValid (l : Lru K) : Type 0 where
    pub exact : l.cur ≡ total l.ll
    pub within : l.cur ≤ l.max
    pub distinct : IsDistinct l.ll

  pub find-drop_key :
      (k j : K) (ll : List (Item K))
      → IsDistinct ll
      → find dec j (drop_key dec k ll) ≡ ite (dec k j) none (find dec j ll)
  unfolding find drop_key
  find-drop_key k j [] d = ground arith
  find-drop_key k j (it ∷ ll) d = ground (arith, find-drop_key k j ll d.1)

  pub find-append :
      (j : K) (xs ys : List (Item K))
      → find dec j (xs ++ ys) ≡ elim (find dec j xs) [ none ↦ find dec j ys | some s ↦ some s ]
  unfolding find
  find-append j [] ys = refl
  find-append j (x ∷ xs) ys = ground (arith, find-append j xs ys)

  pub drop_key-IsDistinct :
      (k : K) (ll : List (Item K)) → IsDistinct ll → IsDistinct (drop_key dec k ll)
  unfolding drop_key
  drop_key-IsDistinct k [] d = tt
  drop_key-IsDistinct k (it ∷ ll) d =
      ground (arith, drop_key-IsDistinct k ll d.1, find-drop_key k it.key ll d.1)

  pub total-drop_key :
      (k : K) (ll : List (Item K)) (s : ℕ)
      → find dec k ll ≡ some s
      → total (drop_key dec k ll) + s ≡ total ll
  unfolding find drop_key total
  total-drop_key k [] s e = cc
  total-drop_key k (it ∷ ll) s e = elim (dec it.key k) [
    | yes hit ↦ rw (if_pos _ hit) (ground arith)
    | no miss ↦ rw (if_neg _ miss) (ground (arith, total-drop_key k ll s))
  ]

  drop_key_absent : (k : K) (ll : List (Item K)) → find dec k ll ≡ none → drop_key dec k ll ≡ ll
  unfolding find drop_key
  drop_key_absent k [] e = refl
  drop_key_absent k (it ∷ ll) e = ground (arith, drop_key_absent k ll)

  pub total-drop_key-le : (k : K) (ll : List (Item K)) → total (drop_key dec k ll) ≤ total ll
  total-drop_key-le k ll = elim (Option-cases (find dec k ll)) [
    | inl e ↦ rw (drop_key_absent k ll e) (omega arith)
    | inr (s, e) ↦ omega (arith, total-drop_key k ll s e)
  ]

  pub push-IsDistinct :
      (k : K) (s : ℕ) (ll : List (Item K))
      → IsDistinct ll
      → find dec k ll ≡ none
      → IsDistinct (ll ++ record { key = k; size = s } ∷ [])
  unfolding find
  push-IsDistinct k s [] d e = (refl, tt)
  push-IsDistinct k s (it ∷ ll) d e =
      ground (
        arith,
        push-IsDistinct k s ll d.1,
        find-append it.key ll (record { key = k; size = s } ∷ []),
      )

  -- On a valid list `remove` and the insertion of `admit` drop the key wherever it stands, with the
  -- total of what is left.
  pub remove_lem :
      (l : Lru K) (k : K)
      → IsValid l
      → remove dec l k ≡ record l { ll = drop_key dec k l.ll; cur = total (drop_key dec k l.ll) }
  unfolding remove
  remove_lem l k v = elim (Option-cases (find dec k l.ll)) [
    | inl e ↦ ground (arith, v.exact, drop_key_absent k l.ll e)
    | inr (s, e) ↦ ground (arith, v.exact, total-drop_key k l.ll s e)
  ]

  pub enter_lem :
      (l : Lru K) (k : K) (size : ℕ)
      → IsValid l
      → enter dec l k size ≡ record l {
        ll = drop_key dec k l.ll ++ record { key = k; size = size } ∷ [];
        cur = total (drop_key dec k l.ll) + size;
      }
  unfolding enter
  enter_lem l k size v = elim (Option-cases (find dec k l.ll)) [
    | inl e ↦ ground (arith, v.exact, drop_key_absent k l.ll e)
    | inr (s, e) ↦ ground (arith, v.exact, total-drop_key k l.ll s e)
  ]

  -- A hit moves its item to the front and changes nothing else that a lookup or the cap can see.
  pub touch-IsValid :
      (l : Lru K) (k : K)
      → IsValid l
      → IsValid (touch dec l k) × ((j : K) → find dec j (touch dec l k).ll ≡ find dec j l.ll)
  unfolding touch find total
  touch-IsValid l k v = elim (Option-cases (find dec k l.ll)) [
    | inl e ↦ rw (e, touch) (v, λ j. refl)
    | inr (s, e) ↦
        let rest = drop_key dec k l.ll in
        let absent : find dec k rest ≡ none = ground (arith, find-drop_key k k l.ll v.distinct) in
        rw (e, touch)
          (
            record {
              exact = ground (
                arith,
                v.exact,
                total-drop_key k l.ll s e,
                total-append rest (record { key = k; size = s } ∷ []),
              );
              within = v.within;
              distinct = push-IsDistinct k s rest (drop_key-IsDistinct k l.ll v.distinct) absent;
            },
            λ j. ground (
              arith,
              find-append j rest (record { key = k; size = s } ∷ []),
              find-drop_key k j l.ll v.distinct,
              e,
            ),
          )
  ]
