-- ===== src/Upstream/LeastConn/Least.antt =====
-- The peer that `pick` chooses carries the least load for its weight.
use parapet.Prelude.{
  ℕ, zero, suc, ◌+◌, ◌%◌, ◌<◌, ◌≡◌, ap, sym, ◌∙◌, ◌⊎◌, subst, List, Option, some, Bool, true, false,
  ◌||◌, arith, get_elem?, length, All, All-get, Option-cases, Bool-cases, inl, inr,
}
use parapet.Upstream.Gate.{up}
use parapet.Upstream.RoundRobin.Rotation.{turn}
use parapet.Upstream.LeastConn.{
  Peer, Balancer, Best, Seen, unseen, full, weigh, look, scan, choose, claimed,
}
use parapet.Upstream.LeastConn.Weigh.{
  IsSmall, LightLoad-trans, Lighter, IsOpen, Beats, AllOpen, weigh-Beats, weigh_finds,
  weigh-AllOpen,
}

module _ (fail_open : Bool) (gate : Option (List Bool)) (peers : List Peer)
    (small : All IsSmall peers) where
  look_of_peer :
      (idx : ℕ) (c : Peer) (seen : Seen)
      → (fail_open || up gate idx) ≡ true
      → get_elem? peers idx ≡ some c
      → (look fail_open gate peers idx seen).best ≡ weigh idx c seen.best
  unfolding look
  look_of_peer idx c seen ok at = ground arith

  look-cases :
      (idx : ℕ) (seen : Seen)
      → ((look fail_open gate peers idx seen).best ≡ seen.best)
        ⊎ ((c : Peer) × ((fail_open || up gate idx) ≡ true)
            × (get_elem? peers idx ≡ some c)
            × ((look fail_open gate peers idx seen).best ≡ weigh idx c seen.best))
  unfolding look
  look-cases idx seen = elim (Bool-cases (fail_open || up gate idx)) [
    | inr skipped ↦ inl (ground arith)
    | inl ok ↦ elim (Option-cases (get_elem? peers idx)) [
      | inl past ↦ inl (ground arith)
      | inr (c, at) ↦ inr (c, ok, at, ground arith)
    ]
  ]

  look-AllOpen :
      (idx : ℕ) (seen : Seen)
      → AllOpen fail_open gate peers seen.best
      → AllOpen fail_open gate peers (look fail_open gate peers idx seen).best
  look-AllOpen idx seen h = elim (look-cases idx seen) [
    | inl same ↦ subst (AllOpen fail_open gate peers) (sym same) h
    | inr (c, ok, at, e) ↦
        subst (AllOpen fail_open gate peers) (sym e)
          (weigh-AllOpen fail_open gate peers small idx c seen.best ok at h)
  ]

  look-Beats :
      (idx : ℕ) (seen : Seen) (b : Best)
      → seen.best ≡ some b
      → IsOpen fail_open gate peers b
      → Beats fail_open gate peers b.active b.weight (look fail_open gate peers idx seen).best
  look-Beats idx seen b e o = elim (look-cases idx seen) [
    | inl same ↦ record { best = b; found = same ∙ e; is_open = o; lighter = omega arith }
    | inr (c, ok, at, e') ↦
        subst (Beats fail_open gate peers b.active b.weight) (sym (e' ∙ ap (weigh idx c) e))
          (weigh-Beats fail_open gate peers small idx c b ok at o)
  ]

  look_finds :
      (idx : ℕ) (c : Peer) (seen : Seen)
      → (fail_open || up gate idx) ≡ true
      → get_elem? peers idx ≡ some c
      → full c ≡ false
      → AllOpen fail_open gate peers seen.best
      → Beats fail_open gate peers c.active c.weight (look fail_open gate peers idx seen).best
  unfolding AllOpen
  look_finds idx c seen ok at room h =
      subst (Beats fail_open gate peers c.active c.weight) (sym (look_of_peer idx c seen ok at))
        (weigh_finds fail_open gate peers small idx c seen.best ok at room h)

  Beats-trans :
      (a w : ℕ) (b : Best) (o : Option Best)
      → IsOpen fail_open gate peers b
      → Lighter b a w
      → Beats fail_open gate peers b.active b.weight o
      → Beats fail_open gate peers a w o
  Beats-trans a w b o open_b l h =
      let there = All-get IsSmall peers b.idx small open_b.here in
      record {
        best = h.best;
        found = h.found;
        is_open = h.is_open;
        lighter =
            LightLoad-trans h.best.active h.best.weight b.active b.weight a w (omega arith)
              h.lighter l;
      }

  -- The rest of a scan keeps the best peer so far or finds a lighter one.
  scan-Beats :
      (start rounds k : ℕ) (seen : Seen) (a w : ℕ)
      → Beats fail_open gate peers a w seen.best
      → Beats fail_open gate peers a w (scan fail_open gate peers start rounds k seen).best
  unfolding scan
  scan-Beats start zero k seen a w h = h
  scan-Beats start (suc rounds) k seen a w h =
      let idx : ℕ = (start + k) % length peers in
      scan-Beats start rounds (k + 1) (look fail_open gate peers idx seen) a w (
        Beats-trans a w h.best (look fail_open gate peers idx seen).best h.is_open h.lighter
          (look-Beats idx seen h.best h.found h.is_open))

  -- A scan that looks at a peer with room ends with one that is no heavier.
  scan_finds :
      (start rounds k j idx : ℕ) (c : Peer) (seen : Seen)
      → j < rounds
      → (start + (k + j)) % length peers ≡ idx
      → (fail_open || up gate idx) ≡ true
      → get_elem? peers idx ≡ some c
      → full c ≡ false
      → AllOpen fail_open gate peers seen.best
      → Beats fail_open gate peers c.active c.weight
          (scan fail_open gate peers start rounds k seen).best
  unfolding scan
  scan_finds start zero k j idx c seen p e ok at room h = absurd (omega arith)
  scan_finds start (suc rounds) k zero idx c seen p e ok at room h =
      let here : (start + k) % length peers ≡ idx =
        ap (λ (t : ℕ). t % length peers) (omega arith) ∙ e in
      scan-Beats start rounds (k + 1) (look fail_open gate peers ((start + k) % length peers) seen)
        c.active c.weight
        (subst
          (λ (i : ℕ).
            Beats fail_open gate peers c.active c.weight (look fail_open gate peers i seen).best)
          (sym here) (look_finds idx c seen ok at room h))
  scan_finds start (suc rounds) k (suc j) idx c seen p e ok at room h =
      let i : ℕ = (start + k) % length peers in
      scan_finds start rounds (k + 1) j idx c (look fail_open gate peers i seen) (omega arith)
        (ap (λ (t : ℕ). t % length peers) (omega arith) ∙ e) ok at room (look-AllOpen i seen h)

  whole_scan_finds :
      (start idx : ℕ) (c : Peer)
      → idx < length peers
      → (fail_open || up gate idx) ≡ true
      → get_elem? peers idx ≡ some c
      → full c ≡ false
      → Beats fail_open gate peers c.active c.weight
          (scan fail_open gate peers start (length peers) 0 unseen).best
  unfolding AllOpen
  whole_scan_finds start idx c p ok at room =
      let (j, below, here) = turn start (length peers) idx p in
      scan_finds start (length peers) 0 j idx c unseen below
        (ap (λ (t : ℕ). t % length peers) (omega arith) ∙ here) ok at room (λ b e. absurd (cc))

-- A peer that the health check does not hold down and that has room is never shed, whatever the cursor:
-- `pick` claims a slot on such a peer whose load for its weight is no more than its own.
pub choose_least :
    (l : Balancer) (idx : ℕ) (c : Peer)
    → All IsSmall l.peers
    → idx < length l.peers
    → up l.gate idx ≡ true
    → get_elem? l.peers idx ≡ some c
    → full c ≡ false
    → (best : Best) × (choose l ≡ claimed best)
      × IsOpen false l.gate l.peers best
      × Lighter best c.active c.weight
unfolding choose
choose_least l idx c small p u at room =
    let found = whole_scan_finds false l.gate l.peers small l.cursor idx c p u at room in
    (found.best, rw (found.found, choose), found.is_open, found.lighter)
