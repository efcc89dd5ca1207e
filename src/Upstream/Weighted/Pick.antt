-- ===== src/Upstream/Weighted/Pick.antt =====
-- `pick` as a whole: the sum of the current weights, and the target.
use parapet.Prelude.{
  [], ◌∷◌, ◌≢◌, ℕ, ◌+◌, ◌%◌, ◌≡◌, ◌<◌, List, Option, none, some, Bool, true, false, arith,
  get_elem?-of_lt, length, total, inl, inr,
}
use parapet.GoInt64.{modulus}
use parapet.Upstream.Gate.{up}
use parapet.Upstream.Weighted.{
  Peer, Balancer, weight_of, Swept, better, sweep, bump_all, pick_all_open, pick,
}
use parapet.Upstream.Weighted.Shares.{
  current_of, settled_total, sweep_totals, total-give_back, length-sweep, weights-sweep,
  total-bump_all, length-bump_all,
}
use parapet.Upstream.Weighted.Winner.{sweep_best, sweep-none, bump_all_best}

-- What a pick promises of a pool with n targets, from the sum `before` of the current weights.
pub record IsFair (is_up : ℕ → Bool) (n before : ℕ) (peers : List Peer) (choice : Option ℕ)
    : Type 0 where
  pub kept : total current_of peers % modulus ≡ before % modulus
  pub idx : ℕ
  pub chosen : choice ≡ some idx
  pub below : idx < n
  pub not_down : (j : ℕ) → j < n → is_up j ≡ true → is_up idx ≡ true

bump_all-ne-none : (peers : List Peer) → 0 < length peers → (bump_all 0 peers none).1 ≢ none
unfolding bump_all better
bump_all-ne-none [] p = absurd (omega arith)
bump_all-ne-none (q ∷ ps) p =
    elim (bump_all_best 1 ps (better 0 ((q.current + q.weight) % modulus) none)) [
      | inl same ↦ λ e. cc
      | inr (b, e', _, _, _) ↦ λ e. cc
    ]

pick_all_open-IsFair :
    (is_up : ℕ → Bool) (sum before n : ℕ) (peers : List Peer)
    → length peers ≡ n
    → 0 < n
    → sum ≡ total weight_of peers % modulus
    → total current_of peers % modulus ≡ before % modulus
    → ((j : ℕ) → j < n → is_up j ≡ false)
    → IsFair is_up n before (pick_all_open sum peers).0 (pick_all_open sum peers).1
unfolding pick_all_open
pick_all_open-IsFair is_up sum before n peers size p s h down = elim (bump_all_best 0 peers none) [
  | inl dark ↦ absurd (bump_all-ne-none peers (omega arith) dark)
  | inr (b, e, lo, hi, ok) ↦
      let given : List Peer = (bump_all 0 peers none).0 in
      let (q, at) = get_elem?-of_lt given b.idx (omega (arith, length-bump_all 0 peers none)) in
      record {
        kept =
            rw (e, pick_all_open)
              (omega (
                arith,
                total-bump_all 0 peers none,
                total-give_back given b.idx sum q at (omega arith),
              ));
        idx = b.idx;
        chosen = rw (e, pick_all_open);
        below = omega arith;
        not_down = λ j lt ok'. ground (arith, down j lt);
      }
]

-- On a pool that is not empty, a pick leaves the sum of the current weights as it is (as int64 words),
-- but for what the targets that have just recovered drop, and it chooses one of the targets, and one
-- that the health check does not hold down if there is any.
pub pick-IsFair :
    (l : Balancer)
    → 0 < length l.peers
    → l.sum ≡ total weight_of l.peers % modulus
    → IsFair
        (up l.gate)
        (length l.peers)
        (settled_total (up l.gate) 0 l.peers)
        (pick l).0.peers
        (pick l).1
unfolding pick
pick-IsFair l p s =
    let swept : Swept = sweep (up l.gate) 0 l.peers none 0 in
    let sums = sweep_totals (up l.gate) 0 l.peers none 0 (omega arith) in
    let size = length-sweep (up l.gate) 0 l.peers none 0 in
    let weights = weights-sweep (up l.gate) 0 l.peers none 0 in
    elim (sweep_best (up l.gate) 0 l.peers none 0) [
      | inl dark ↦
          let none_up = sweep-none (up l.gate) 0 l.peers none 0 dark in
          rw (dark, pick)
            (pick_all_open-IsFair (up l.gate) l.sum (settled_total (up l.gate) 0 l.peers)
              (length l.peers) swept.peers size p (omega arith) (omega (arith, none_up.none_given))
              (λ j lt. none_up.down j (omega arith) (omega arith)))
      | inr (b, e, lo, hi, ok) ↦
          let (q, at) = get_elem?-of_lt swept.peers b.idx (omega arith) in
          record {
            kept =
                rw (e, pick)
                  (omega (arith, total-give_back swept.peers b.idx swept.live q at sums.0));
            idx = b.idx;
            chosen = rw (e, pick);
            below = omega arith;
            not_down = λ _ _ _. ok;
          }
    ]
