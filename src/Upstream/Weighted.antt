-- ===== src/Upstream/Weighted.antt =====
-- pkg/upstream/weighted.go: smooth weighted round robin. `pick` runs under the balancer's mutex.
use parapet.Prelude.{
  ℕ, zero, suc, ◌+◌, ◌%◌, List, [], ◌∷◌, Option, none, some, Bool, true, false, not, ◌&&◌, ◌==◌,
  if◌then◌else◌, get_elem?, set, length, map, total,
}
use parapet.GoInt64.{less, sub, modulus}
use parapet.Upstream.Gate.{up}
use parapet.Upstream.RoundRobin.{effective_weight}
pub mod Shares
pub mod Winner
pub mod Pick

-- `swrrPeer`, with int64 words.
pub record Peer : Type 0 where
  pub weight : ℕ
  pub current : ℕ
  pub was_up : Bool

pub record Balancer : Type 0 where
  pub sum : ℕ
  pub peers : List Peer
  pub gate : Option (List Bool)

abbrev pub new_peer : ℕ → Peer
new_peer w = record { weight = effective_weight w; current = 0; was_up = false }

abbrev pub weight_of : Peer → ℕ
weight_of p = p.weight

-- `init`, of the targets' `Weight` fields.
unfoldable pub init : List ℕ → Option (List Bool) → Balancer
unfolding effective_weight total
init weights gate =
    let peers = map new_peer weights in
    record { sum = total weight_of peers % modulus; peers = peers; gate = gate }

-- `best` and the current weight at that index.
pub record Best : Type 0 where
  pub idx : ℕ
  pub current : ℕ

-- A target that has just recovered drops its stale weight.
abbrev pub settled : Bool → Peer → ℕ
settled is_up p = if is_up && not p.was_up then 0 else p.current

abbrev pub bumped : Bool → Peer → ℕ
bumped is_up p = if is_up then (settled is_up p + p.weight) % modulus else settled is_up p

unfoldable pub better : ℕ → ℕ → Option Best → Option Best
better idx current none = some (record { idx = idx; current = current })
better idx current (some best) =
    if less best.current current then some (record { idx = idx; current = current }) else some best

pub record Swept : Type 0 where
  pub peers : List Peer
  pub best : Option Best
  pub live : ℕ

-- The loop of `pick` from index `i` on, with its variables `best` and `liveTotal`.
unfoldable pub sweep : (ℕ → Bool) → ℕ → List Peer → Option Best → ℕ → Swept
unfolding better
sweep is_up i [] best live = record { peers = []; best = best; live = live }
sweep is_up i (p ∷ ps) best live =
    let current = bumped (is_up i) p in
    let rest =
      sweep is_up (i + 1) ps (if is_up i then better i current best else best)
        (if is_up i then (live + p.weight) % modulus else live) in
    record {
      peers = record { weight = p.weight; current = current; was_up = is_up i } ∷ rest.peers;
      best = rest.best;
      live = rest.live;
    }

abbrev pub give_back : List Peer → ℕ → ℕ → List Peer
give_back peers idx amount = elim (get_elem? peers idx) [
  | none ↦ peers
  | some p ↦ set peers idx (record p { current = sub p.current amount })
]

-- The loop of `pickAllOpen`.
unfoldable pub bump_all : ℕ → List Peer → Option Best → List Peer × Option Best
unfolding better
bump_all i [] best = ([], best)
bump_all i (p ∷ ps) best =
    let current = (p.current + p.weight) % modulus in
    let rest = bump_all (i + 1) ps (better i current best) in
    (record p { current = current } ∷ rest.0, rest.1)

-- Without a peer it would index out of range; `none` stands for that panic.
unfoldable pub pick_all_open : ℕ → List Peer → List Peer × Option ℕ
unfolding bump_all
pick_all_open sum peers =
    let (bumped_peers, best) = bump_all 0 peers none in
    elim best [
      | none ↦ (bumped_peers, none)
      | some b ↦ (give_back bumped_peers b.idx sum, some b.idx)
    ]

unfoldable pub pick : Balancer → Balancer × Option ℕ
unfolding sweep pick_all_open
pick l =
    let swept = sweep (up l.gate) 0 l.peers none 0 in
    elim swept.best [
      | some b ↦ (record l { peers = give_back swept.peers b.idx swept.live }, some b.idx)
      | none ↦
          let (peers, idx) = pick_all_open l.sum swept.peers in (record l { peers = peers }, idx)
    ]
