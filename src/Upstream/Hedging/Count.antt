-- ===== src/Upstream/Hedging/Count.antt =====
-- How many of the legs have sent their results.
use parapet.Prelude.{
  ℕ, zero, suc, ◌+◌, ◌<◌, ◌≤◌, ◌≡◌, refl, List, Bool, [], ◌∷◌, ◌++◌, some, false, if◌then◌else◌,
  map, get_elem?, length, length-append, total, arith, ap, ◌∙◌, subst,
}
use parapet.Upstream.Hedging.{Leg, running, cancel, cancel_others, lose}

abbrev pub done_of : Leg → ℕ
done_of l = if l.finished then 1 else 0

-- How many legs have sent their result.
abbrev pub finished_of : List Leg → ℕ
finished_of ls = total done_of ls

pub finished-append : (ls : List Leg) → finished_of (ls ++ running ∷ []) ≡ finished_of ls
unfolding total
finished-append [] = refl
finished-append (l ∷ ls) = omega (arith, finished-append ls)

pub finished-map-cancel : (ls : List Leg) → finished_of (map cancel ls) ≡ finished_of ls
unfolding total
finished-map-cancel [] = refl
finished-map-cancel (l ∷ ls) = omega (arith, finished-map-cancel ls)

finished-lose :
    (idx : ℕ) (ls : List Leg) (l : Leg)
    → get_elem? ls idx ≡ some l
    → l.finished ≡ false
    → (finished_of (lose idx ls) ≡ finished_of ls + 1) × (length (lose idx ls) ≡ length ls)
unfolding total lose
finished-lose idx [] l h f = absurd (cc)
finished-lose zero (x ∷ ls) l h f = ground arith
finished-lose (suc idx) (x ∷ ls) l h f = ground (arith, finished-lose idx ls l h f)

finished-cancel_others :
    (body : Bool) (idx i : ℕ) (ls : List Leg)
    → idx < i
    → (finished_of (cancel_others body idx i ls) ≡ finished_of ls)
      × (length (cancel_others body idx i ls) ≡ length ls)
unfolding total cancel_others
finished-cancel_others body idx i [] h = (refl, refl)
finished-cancel_others body idx i (l ∷ ls) h =
    ground (arith, finished-cancel_others body idx (i + 1) ls (omega arith))

-- The winner's result is the one more that is received.
finished-winner :
    (body : Bool) (k i : ℕ) (ls : List Leg) (l : Leg)
    → get_elem? ls k ≡ some l
    → l.finished ≡ false
    → (finished_of (cancel_others body (i + k) i ls) ≡ finished_of ls + 1)
      × (length (cancel_others body (i + k) i ls) ≡ length ls)
unfolding total cancel_others
finished-winner body k i [] l h f = absurd (cc)
finished-winner body zero i (x ∷ ls) l h f =
    ground (arith, finished-cancel_others body (i + 0) (i + 1) ls (omega arith))
finished-winner body (suc k) i (x ∷ ls) l h f =
    let shifted : (finished_of (cancel_others body (i + suc k) (i + 1) ls) ≡ finished_of ls + 1)
        × (length (cancel_others body (i + suc k) (i + 1) ls) ≡ length ls) =
      subst
        (λ (m : ℕ).
          (finished_of (cancel_others body m (i + 1) ls) ≡ finished_of ls + 1)
          × (length (cancel_others body m (i + 1) ls) ≡ length ls))
        (omega arith) (finished-winner body k (i + 1) ls l h f) in
    ground (arith, shifted)

pub finished-le : (ls : List Leg) → finished_of ls ≤ length ls
unfolding total
finished-le [] = omega arith
finished-le (l ∷ ls) = ground (arith, finished-le ls)

pub length-map-cancel : (ls : List Leg) → length (map cancel ls) ≡ length ls
length-map-cancel [] = refl
length-map-cancel (l ∷ ls) = ap suc (length-map-cancel ls)

-- What a received result does to the legs, won or lost and with a hedge launched after it.
pub record Counts (body : Bool) (idx : ℕ) (ls : List Leg) : Type 0 where
  pub lost : finished_of (lose idx ls) ≡ finished_of ls + 1
  pub lost_size : length (lose idx ls) ≡ length ls
  pub won : finished_of (cancel_others body idx 0 ls) ≡ finished_of ls + 1
  pub won_size : length (cancel_others body idx 0 ls) ≡ length ls
  pub more : finished_of (lose idx ls ++ running ∷ []) ≡ finished_of ls + 1
  pub more_size : length (lose idx ls ++ running ∷ []) ≡ length ls + 1
  pub room : finished_of ls + 1 ≤ length ls

pub counts :
    (body : Bool) (idx : ℕ) (ls : List Leg) (l : Leg)
    → get_elem? ls idx ≡ some l
    → l.finished ≡ false
    → Counts body idx ls
counts body idx ls l at f =
    let lost = finished-lose idx ls l at f in
    let won = finished-winner body idx 0 ls l at f in
    let same : 0 + idx ≡ idx = omega arith in
    record {
      lost = lost.0;
      lost_size = lost.1;
      won =
          subst (λ (m : ℕ). finished_of (cancel_others body m 0 ls) ≡ finished_of ls + 1) same
            won.0;
      won_size = subst (λ (m : ℕ). length (cancel_others body m 0 ls) ≡ length ls) same won.1;
      more = finished-append (lose idx ls) ∙ lost.0;
      more_size = omega (arith, length-append (lose idx ls) (running ∷ []), lost.1);
      room = omega (arith, lost.0, lost.1, finished-le (lose idx ls));
    }
