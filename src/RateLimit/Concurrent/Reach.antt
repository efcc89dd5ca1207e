-- ===== src/RateLimit/Concurrent/Reach.antt =====
-- The runs of the strategy: requests that take a slot and give it back, in any interleaving.
use parapet.Prelude.{
  subst, ℕ, ◌+◌, ◌-◌, ◌≤◌, ◌≡◌, refl, ap, List, [], ◌∷◌, ◌++◌, none, some, Bool, true, false, ◌==◌,
  if◌then◌else◌, ite, arith,
}
use parapet.Prelude.Assoc
use parapet.RateLimit.Concurrent.{ConcurrentStrategy, new, running, take, put}

module _ {K : Type 0} (dec : Discrete K) where
  -- How many of the requests in flight are for the key.
  unfoldable pub count : K → List K → ℕ
  count k [] = 0
  count k (x ∷ xs) = ite (dec x k) (count k xs + 1) (count k xs)

  -- A state of the strategy and the keys of the requests that run.
  pub data Reachable (capacity : ℕ) : ConcurrentStrategy K → List K → Type 0 where
    fresh : Reachable capacity (new capacity) []
    admitted :
        {b : ConcurrentStrategy K} {xs : List K} (key : K)
        → Reachable capacity b xs
        → (take dec b key).1 ≡ true
        → Reachable capacity (take dec b key).0 (key ∷ xs)
    refused :
        {b : ConcurrentStrategy K} {xs : List K} (key : K)
        → Reachable capacity b xs
        → (take dec b key).1 ≡ false
        → Reachable capacity (take dec b key).0 xs
    finished :
        {b : ConcurrentStrategy K} (key : K) (xs ys : List K)
        → Reachable capacity b (xs ++ key ∷ ys)
        → Reachable capacity (put dec b key) (xs ++ ys)

  count-append :
      (k x : K) (xs ys : List K)
      → count k (xs ++ x ∷ ys) ≡ ite (dec x k) (count k (xs ++ ys) + 1) (count k (xs ++ ys))
  unfolding count
  count-append k x [] ys = refl
  count-append k x (y ∷ xs) ys = ground (arith, count-append k x xs ys)

  -- An entry says how many requests run, and there is one only while some do.
  pub record IsExact (capacity : ℕ) (b : ConcurrentStrategy K) (xs : List K) : Type 0 where
    pub cap : b.capacity ≡ capacity
    pub within : (k : K) → count k xs ≤ capacity
    pub stored :
        (k : K) → Assoc.get dec k b.storage ≡ (if count k xs == 0 then none else some (count k xs))

  take-IsExact :
      {capacity : ℕ} (b : ConcurrentStrategy K) (xs : List K) (key : K)
      → IsExact capacity b xs
      → IsExact capacity (take dec b key).0 (if (take dec b key).1 then key ∷ xs else xs)
  unfolding take count running
  take-IsExact b xs key h = record {
    cap = ground (arith, h.cap);
    within = λ k. ground (arith, h.cap, h.within k, h.within key, h.stored key);
    stored = λ k. ground (
      arith,
      h.stored k,
      h.stored key,
      Assoc.get-put dec key k (running dec b key + 1) b.storage,
    );
  }

  put-IsExact :
      {capacity : ℕ} (b : ConcurrentStrategy K) (key : K) (xs ys : List K)
      → IsExact capacity b (xs ++ key ∷ ys)
      → IsExact capacity (put dec b key) (xs ++ ys)
  unfolding put running
  put-IsExact b key xs ys h =
      let lowered = Assoc.put dec key (running dec b key - 1) b.storage in
      record {
        cap = ground (arith, h.cap);
        within = λ k. ground (arith, h.within k, count-append k key xs ys);
        stored = λ k. ground (
          arith,
          h.stored k,
          h.stored key,
          count-append k key xs ys,
          count-append key key xs ys,
          Assoc.get-put dec key k (running dec b key - 1) b.storage,
          Assoc.get-delete dec key k lowered,
        );
      }

  -- However the requests interleave, at most the capacity of each key run at a time, the count of
  -- a key is the number that run, and a key of which none runs takes no room in the map.
  pub Reachable-IsExact :
      {capacity : ℕ} {b : ConcurrentStrategy K} {xs : List K}
      → Reachable capacity b xs
      → IsExact capacity b xs
  unfolding Assoc.get count new
  Reachable-IsExact fresh = record { cap = refl; within = λ k. ground arith; stored = λ k. refl }
  Reachable-IsExact (admitted {b} {xs} key r ok) =
      rw⁻¹ (ap (λ (c : Bool). if c then key ∷ xs else xs) ok)
        (take-IsExact b xs key (Reachable-IsExact r))
  Reachable-IsExact {capacity} (refused {b} {xs} key r full) =
      subst (λ (c : Bool). IsExact capacity (take dec b key).0 (if c then key ∷ xs else xs)) full
        (take-IsExact b xs key (Reachable-IsExact r))
  Reachable-IsExact (finished {b} key xs ys r) = put-IsExact b key xs ys (Reachable-IsExact r)
