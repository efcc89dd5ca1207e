-- ===== src/Cache/Memory/Agreement.antt =====
-- The data and the accounting of the memory backend agree between two calls.
use parapet.Prelude.{
  dec_lt, ltb, ◌∙◌, ℕ, ◌≡◌, refl, List, [], ◌∷◌, Option, none, some, false, if◌then◌else◌, arith,
  Option-cases, Bool-cases, inl, inr,
}
use parapet.Prelude.Assoc
use parapet.Cache.Storage.{Meta}
use parapet.Cache.Lru.{find, admit}
use parapet.Cache.Lru.Order.{
  IsValid, total, remove_lem, find-drop_key, drop_key-IsDistinct, touch-IsValid, total-drop_key-le,
}
use parapet.Cache.Lru.Eviction.{has, find-admit, admit-IsValid, admit_stores, admit_refuses}
use parapet.Cache.Memory.{Entry, MemoryStorage, Writer, new_memory, get, delete, delete_all, commit}

-- The weight that the accounting should have for an entry.
abbrev pub weight : Option Entry → Option ℕ
weight none = none
weight (some e) = some e.meta.size

module _ {K : Type 0} (dec : Discrete K) where
  -- The accounting is valid, and knows each stored entry by its size and nothing else.
  pub record Agrees (s : MemoryStorage K) : Type 0 where
    pub valid : IsValid dec s.lru
    pub weights : (k : K) → find dec k s.lru.ll ≡ weight (Assoc.get dec k s.m)

  pub get-delete_all :
      (ks : List K) (m : List (K × Entry)) (j : K)
      → Assoc.get dec j (delete_all dec ks m) ≡ (if has dec j ks then none else Assoc.get dec j m)
  unfolding delete_all has
  get-delete_all [] m j = refl
  get-delete_all (k ∷ ks) m j =
      ground (arith, get-delete_all ks (Assoc.delete dec k m) j, Assoc.get-delete dec k j m)

  pub new-Agrees : (max : ℕ) → Agrees (new_memory max)
  unfolding new_memory find Assoc.get total
  new-Agrees max = record {
    valid = record { exact = refl; within = ground arith; distinct = tt };
    weights = λ k. refl;
  }

  -- `Commit` stores the entry, evicts the data of exactly the victims, and keeps the agreement.
  pub commit-Agrees :
      (s : MemoryStorage K) (w : Writer K) (meta : Meta) → Agrees s → Agrees (commit dec s w meta).0
  unfolding commit
  commit-Agrees s w meta a = elim (Bool-cases w.done) [
    | inl done ↦ rw done a
    | inr live ↦
        let stored = Assoc.put dec w.key (record { body = w.buf; meta = meta }) s.m in
        let victims = (admit dec s.lru w.key meta.size).1 in
        rw live (record {
          valid = admit-IsValid dec s.lru a.valid w.key meta.size;
          weights = λ k. ground (
            arith,
            find-admit dec s.lru a.valid w.key meta.size k,
            get-delete_all victims stored k,
            Assoc.get-put dec w.key k (record { body = w.buf; meta = meta }) s.m,
            a.weights k,
          );
        })
  ]

  -- `Delete` keeps the agreement.
  pub delete-Agrees : (s : MemoryStorage K) (k : K) → Agrees s → Agrees (delete dec s k)
  unfolding delete
  delete-Agrees s k a = rw (remove_lem dec s.lru k a.valid) (record {
    valid = record {
      exact = refl;
      within = omega (arith, total-drop_key-le dec k s.lru.ll, a.valid.exact, a.valid.within);
      distinct = drop_key-IsDistinct dec k s.lru.ll a.valid.distinct;
    };
    weights = λ j. ground (
      arith,
      find-drop_key dec k j s.lru.ll a.valid.distinct,
      Assoc.get-delete dec k j s.m,
      a.weights j,
    );
  })

  pub get-Agrees : (s : MemoryStorage K) (k : K) → Agrees s → Agrees (get dec s k).0
  unfolding get
  get-Agrees s k a = elim (Option-cases (Assoc.get dec k s.m)) [
    | inl miss ↦ rw (miss, get) a
    | inr (e, hit) ↦
        let (valid, same) = touch-IsValid dec s.lru k a.valid in
        rw (hit, get) (record { valid = valid; weights = λ j. same j ∙ a.weights j })
  ]

  -- A finished write of an object that fits is what the next lookup of its key returns, bytes and
  -- metadata; an object above the cap is not stored, and no earlier version of it is either.
  pub get-commit :
      (s : MemoryStorage K) (w : Writer K) (meta : Meta)
      → Agrees s
      → w.done ≡ false
      → (get dec (commit dec s w meta).0 w.key).1
        ≡ (if ltb s.lru.max meta.size then none else some (meta, w.buf))
  unfolding commit get has find
  get-commit s w meta a live =
      let e : Entry = record { body = w.buf; meta = meta } in
      let victims = (admit dec s.lru w.key meta.size).1 in
      let where_it_is = find-admit dec s.lru a.valid w.key meta.size w.key in
      let gone = get-delete_all victims (Assoc.put dec w.key e s.m) w.key in
      let stored = Assoc.get-put_self dec w.key e s.m in
      rw live (elim (dec_lt s.lru.max meta.size) [
        | yes over ↦
            ground (arith, admit_refuses dec s.lru a.valid w.key meta.size over, gone, stored)
        | no fits ↦ ground (
          arith,
          (admit_stores dec s.lru a.valid w.key meta.size (omega arith)).0,
          where_it_is,
          gone,
          stored,
        )
      ])
