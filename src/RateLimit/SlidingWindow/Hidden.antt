-- ===== src/RateLimit/SlidingWindow/Hidden.antt =====
-- The answers of `Take` before and after a sweep.
use parapet.Prelude.{
  ℕ, ◌+◌, ◌/◌, ◌≤◌, ◌≡◌, ◌≢◌, refl, ap, sym, subst, ◌∙◌, List, [], ◌∷◌, some, Bool, All, arith,
  if◌then◌else◌, not,
}
use parapet.Prelude.Assoc
use parapet.RateLimit.SlidingWindow.{
  SlidingItem, SlidingWindow, size, roll, item_at, take_by, evict_stale,
}
use parapet.RateLimit.SlidingWindow.Sweep.{item_at-some, item_at-eq, Alike, evict_stale-Alike}

module _ {K : Type 0} (dec : Discrete K) (exceeds : ℕ → ℕ → ℕ → ℕ → ℕ → Bool) where
  -- What `Take` does with the item.
  abbrev pub refuses : SlidingWindow K → ℕ → SlidingItem → Bool
  refuses b now t = exceeds t.prev t.curr now (size b) b.max

  abbrev pub counted : SlidingWindow K → ℕ → SlidingItem → SlidingItem
  counted b now t = if refuses b now t then t else record t { curr = t.curr + 1 }

  pub take-storage :
      (b : SlidingWindow K) (now : ℕ) (key : K)
      → (take_by dec exceeds b now key).0.storage
        ≡ Assoc.put dec key (counted b now (item_at dec b (now / size b) key)) b.storage
  unfolding take_by
  take-storage b now key = ground arith

  pub take-settings :
      (b : SlidingWindow K) (now : ℕ) (key : K)
      → ((take_by dec exceeds b now key).0.max ≡ b.max)
        × ((take_by dec exceeds b now key).0.window_size ≡ b.window_size)
  unfolding take_by
  take-settings b now key = ground arith

  pub take-grants :
      (b : SlidingWindow K) (now : ℕ) (key : K)
      → (take_by dec exceeds b now key).1 ≡ not (refuses b now (item_at dec b (now / size b) key))
  unfolding take_by
  take-grants b now key = ground arith

  pub take-size :
      (b : SlidingWindow K) (now : ℕ) (key : K) → size (take_by dec exceeds b now key).0 ≡ size b
  unfolding size
  take-size b now key = ground (arith, take-settings b now key)

  pub take-here :
      (b : SlidingWindow K) (now : ℕ) (key : K)
      → Assoc.get dec key (take_by dec exceeds b now key).0.storage
        ≡ some (counted b now (item_at dec b (now / size b) key))
  take-here b now key =
      ap (Assoc.get dec key) (take-storage b now key)
      ∙ Assoc.get-put_self dec key (counted b now (item_at dec b (now / size b) key)) b.storage

  pub take-elsewhere :
      (b : SlidingWindow K) (now : ℕ) (key k : K)
      → key ≢ k
      → Assoc.get dec k (take_by dec exceeds b now key).0.storage ≡ Assoc.get dec k b.storage
  take-elsewhere b now key k other =
      ap (Assoc.get dec k) (take-storage b now key)
      ∙ Assoc.get-put_ne dec key k (counted b now (item_at dec b (now / size b) key)) b.storage
          other

  counted-eq :
      (b c : SlidingWindow K) (w now : ℕ) (t : SlidingItem)
      → Alike dec w b c
      → counted b now t ≡ counted c now t
  counted-eq b c w now t h = ground (arith, h.sizes, h.maxima)

  -- The item of a call, the same on both.
  called :
      (b c : SlidingWindow K) (w now : ℕ) (key : K)
      → Alike dec w b c
      → w ≤ now / size b
      → item_at dec b (now / size b) key ≡ item_at dec c (now / size c) key
  called b c w now key h le =
      h.items (now / size b) key le ∙ ap (λ (s : ℕ). item_at dec c (now / s) key) h.sizes

  take-Alike :
      (b c : SlidingWindow K) (w now : ℕ) (key : K)
      → Alike dec w b c
      → w ≤ now / size b
      → Alike dec w (take_by dec exceeds b now key).0 (take_by dec exceeds c now key).0
  take-Alike b c w now key h le = record {
    sizes = take-size b now key ∙ h.sizes ∙ sym (take-size c now key);
    maxima = (take-settings b now key).0 ∙ h.maxima ∙ sym (take-settings c now key).0;
    items = λ later k after. elim (dec key k) [
      | yes same ↦
          subst
            (λ (x : K).
              item_at dec (take_by dec exceeds b now key).0 later x
              ≡ item_at dec (take_by dec exceeds c now key).0 later x)
            same
            (item_at-some dec (take_by dec exceeds b now key).0 later key _ (take-here b now key)
              ∙ ap (roll later) (
                  counted-eq b c w now (item_at dec b (now / size b) key) h
                  ∙ ap (counted c now) (called b c w now key h le))
              ∙ sym (
                  item_at-some dec (take_by dec exceeds c now key).0 later key _
                    (take-here c now key)))
      | no other ↦
          item_at-eq dec (take_by dec exceeds b now key).0 b later k
            (take-elsewhere b now key k other)
          ∙ h.items later k after
          ∙ sym (
              item_at-eq dec (take_by dec exceeds c now key).0 c later k
                (take-elsewhere c now key k other))
    ];
  }

  take-grants_eq :
      (b c : SlidingWindow K) (w now : ℕ) (key : K)
      → Alike dec w b c
      → w ≤ now / size b
      → (take_by dec exceeds b now key).1 ≡ (take_by dec exceeds c now key).1
  take-grants_eq b c w now key h le = ground (
    arith,
    take-grants b now key,
    take-grants c now key,
    called b c w now key h le,
    h.sizes,
    h.maxima,
  )

  -- The answers to calls, one after the other.
  unfoldable pub answers : SlidingWindow K → List (ℕ × K) → List Bool
  answers b [] = []
  answers b ((now, key) ∷ calls) =
      (take_by dec exceeds b now key).1 ∷ answers (take_by dec exceeds b now key).0 calls

  answers-Alike :
      (b c : SlidingWindow K) (w : ℕ) (calls : List (ℕ × K))
      → Alike dec w b c
      → All (λ call. w ≤ call.0 / size b) calls
      → answers b calls ≡ answers c calls
  unfolding answers
  answers-Alike b c w [] h le = refl
  answers-Alike b c w ((now, key) ∷ calls) h le =
      let tail =
        answers-Alike (take_by dec exceeds b now key).0 (take_by dec exceeds c now key).0 w calls
          (take-Alike b c w now key h le.0)
          (subst (λ (s : ℕ). All (λ call. w ≤ call.0 / s) calls) (sym (take-size b now key))
            le.1) in
      ap (λ (g : Bool). g ∷ answers (take_by dec exceeds b now key).0 calls)
        (take-grants_eq b c w now key h le.0)
      ∙ ap (λ (gs : List Bool). (take_by dec exceeds c now key).1 ∷ gs) tail

  -- Whatever the comparison of the counts is: a sweep changes no answer, if the clock does not go back to
  -- a window before the sweep's.
  pub answers-evict_stale :
      (b : SlidingWindow K) (now : ℕ) (calls : List (ℕ × K))
      → All (λ call. now / size b ≤ call.0 / size b) calls
      → answers (evict_stale dec b now).0 calls ≡ answers b calls
  answers-evict_stale b now calls h =
      let alike = evict_stale-Alike dec b now in
      answers-Alike (evict_stale dec b now).0 b (now / size b) calls alike
        (subst (λ (s : ℕ). All (λ call. now / size b ≤ call.0 / s) calls) (sym alike.sizes) h)
