-- ===== src/Upstream/Weighted/Shares.antt =====
-- What a pick does to the current weights.
use parapet.Prelude.{
  ℕ, ◌+◌, ◌%◌, ◌≡◌, ◌<◌, refl, List, [], ◌∷◌, Option, some, Bool, true, false, arith, get_elem?,
  length, total, total-set, ap, suc, if◌then◌else◌,
}
use parapet.GoInt64.{sub, modulus}
use parapet.Upstream.Weighted.{
  Peer, weight_of, Best, settled, bumped, better, sweep, give_back, bump_all,
}

abbrev pub current_of : Peer → ℕ
current_of p = p.current

-- The current weights after the reset of the recovered targets, and the weights of the targets up.
unfoldable pub settled_total : (ℕ → Bool) → ℕ → List Peer → ℕ
settled_total is_up i [] = 0
settled_total is_up i (p ∷ ps) = settled (is_up i) p + settled_total is_up (i + 1) ps

-- One round, over the sums of the rounds after it.
sweep_step :
    (u : Bool) (p : Peer) (live after before given : ℕ)
    → (after + (if u then (live + p.weight) % modulus else live)) % modulus
      ≡ (before + given) % modulus
    → (bumped u p + after + live) % modulus ≡ (settled u p + before + given) % modulus
sweep_step true p live after before given h = let s : ℕ = settled true p in omega arith
sweep_step false p live after before given h = omega arith

pub sweep_totals :
    (is_up : ℕ → Bool) (i : ℕ) (ps : List Peer) (best : Option Best) (live : ℕ)
    → live < modulus
    → ((sweep is_up i ps best live).live < modulus)
      × ((total current_of (sweep is_up i ps best live).peers + live) % modulus
          ≡ (settled_total is_up i ps + (sweep is_up i ps best live).live) % modulus)
unfolding sweep settled_total total
sweep_totals is_up i [] best live h = (h, omega arith)
sweep_totals is_up i (p ∷ ps) best live h =
    let b : Option Best = if is_up i then better i (bumped (is_up i) p) best else best in
    let v : ℕ = if is_up i then (live + p.weight) % modulus else live in
    let rest = sweep_totals is_up (i + 1) ps b v (ground arith) in
    (
      rest.0,
      sweep_step (is_up i) p live (total current_of (sweep is_up (i + 1) ps b v).peers)
          (settled_total is_up (i + 1) ps) (sweep is_up (i + 1) ps b v).live rest.1,
    )

pub total-give_back :
    (ps : List Peer) (idx amount : ℕ) (p : Peer)
    → get_elem? ps idx ≡ some p
    → amount < modulus
    → (total current_of (give_back ps idx amount) + amount) % modulus
      ≡ total current_of ps % modulus
unfolding sub
total-give_back ps idx amount p at h =
    let moved = total-set current_of ps idx p (record p { current = sub p.current amount }) at in
    rw (at, give_back) (omega (arith, moved))

pub length-sweep :
    (is_up : ℕ → Bool) (i : ℕ) (ps : List Peer) (best : Option Best) (live : ℕ)
    → length (sweep is_up i ps best live).peers ≡ length ps
unfolding sweep
length-sweep is_up i [] best live = refl
length-sweep is_up i (p ∷ ps) best live = ap suc (length-sweep is_up (i + 1) ps _ _)

pub weights-sweep :
    (is_up : ℕ → Bool) (i : ℕ) (ps : List Peer) (best : Option Best) (live : ℕ)
    → total weight_of (sweep is_up i ps best live).peers ≡ total weight_of ps
unfolding sweep total
weights-sweep is_up i [] best live = refl
weights-sweep is_up i (p ∷ ps) best live =
    ap (λ (t : ℕ). p.weight + t) (weights-sweep is_up (i + 1) ps _ _)

pub total-bump_all :
    (i : ℕ) (ps : List Peer) (best : Option Best)
    → total current_of (bump_all i ps best).0 % modulus
      ≡ (total current_of ps + total weight_of ps) % modulus
unfolding bump_all total
total-bump_all i [] best = refl
total-bump_all i (p ∷ ps) best =
    omega (arith, total-bump_all (i + 1) ps (better i ((p.current + p.weight) % modulus) best))

pub length-bump_all :
    (i : ℕ) (ps : List Peer) (best : Option Best) → length (bump_all i ps best).0 ≡ length ps
unfolding bump_all
length-bump_all i [] best = refl
length-bump_all i (p ∷ ps) best = ap suc (length-bump_all (i + 1) ps _)
