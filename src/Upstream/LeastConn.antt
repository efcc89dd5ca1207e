-- ===== src/Upstream/LeastConn.antt =====
-- pkg/upstream/leastconn.go: the least-connections balancer with its bulkhead cap. The methods run
-- here without interference; the race for a slot is in Slots.
use parapet.Prelude.{
  ℕ, zero, suc, ◌+◌, ◌%◌, List, [], ◌∷◌, Option, none, some, Bool, true, false, not, ◌&&◌, ◌||◌,
  ◌==◌, if◌then◌else◌, get_elem?, set, length, map,
}
use parapet.GoInt64.{less, mul}
use parapet.Upstream.Gate.{up}
use parapet.Upstream.RoundRobin.{effective_weight}
use parapet.Upstream.CircuitBreaker.Word.{next32}
pub mod Weigh
pub mod Least
pub mod Slots

-- The fields of a `Target` that count here, as int64 words.
pub record Target : Type 0 where
  pub weight : ℕ
  pub max_concurrent : ℕ

-- `lcPeer`, all int64 words; a cap of 0 is none.
pub record Peer : Type 0 where
  pub weight : ℕ
  pub cap : ℕ
  pub active : ℕ

abbrev pub new_peer : Target → Peer
new_peer t = record {
  weight = effective_weight t.weight;
  cap = if less 0 t.max_concurrent then t.max_concurrent else 0;
  active = 0;
}

pub record Balancer : Type 0 where
  pub cursor : ℕ
  pub peers : List Peer
  pub gate : Option (List Bool)

-- `init`.
unfoldable pub init : List Target → Option (List Bool) → Balancer
unfolding effective_weight
init targets gate = record { cursor = 0; peers = map new_peer targets; gate = gate }

pub data ShedReason : Type 0 where
  shed_empty shed_saturated shed_all_dark : ShedReason

-- `best` with `bestA`: an index and the active count read there.
pub record Best : Type 0 where
  pub idx : ℕ
  pub active : ℕ
  pub weight : ℕ

-- The variables of one scan.
pub record Seen : Type 0 where
  pub best : Option Best
  pub saw_up : Bool

abbrev pub unseen : Seen
unseen = record { best = none; saw_up = false }

abbrev pub full : Peer → Bool
full c = not (c.cap == 0) && not (less c.active c.cap)

-- Whether a peer with this load replaces the best one so far.
unfoldable pub better : Peer → Option Best → Bool
better c none = true
better c (some best) = less (mul c.active best.weight) (mul best.active c.weight)

-- The body of the scan for a peer that the gate does not skip.
unfoldable pub weigh : ℕ → Peer → Option Best → Option Best
unfolding better
weigh idx c best =
    if full c
    then best
    else if better c best
    then some (record { idx = idx; active = c.active; weight = c.weight })
    else best

-- The body of the scan.
unfoldable pub look : Bool → Option (List Bool) → List Peer → ℕ → Seen → Seen
unfolding weigh
look fail_open gate peers idx seen =
    if fail_open || up gate idx
    then record {
      best = elim (get_elem? peers idx) [ none ↦ seen.best | some c ↦ weigh idx c seen.best ];
      saw_up = seen.saw_up || not fail_open;
    }
    else seen

-- The index is computed in 64 bits, where `start + k` does not wrap.
unfoldable pub scan : Bool → Option (List Bool) → List Peer → ℕ → ℕ → ℕ → Seen → Seen
unfolding look
scan fail_open gate peers start zero k seen = seen
scan fail_open gate peers start (suc rounds) k seen =
    scan fail_open gate peers start rounds (k + 1)
      (look fail_open gate peers ((start + k) % length peers) seen)

-- What `pick` returns: the index of the peer on which it holds a slot, or the reason of the shed.
pub data Choice : Type 0 where
  claimed : Best → Choice
  shed : ShedReason → Choice

abbrev pub whole_scan : Bool → Balancer → Seen
whole_scan fail_open l = scan fail_open l.gate l.peers l.cursor (length l.peers) 0 unseen

-- `pick`, up to `claim`: a pool that is dark as a whole is scanned again without the gate.
unfoldable pub choose : Balancer → Choice
unfolding scan
choose l =
    let first = whole_scan false l in
    let second = whole_scan true l in
    elim first.best [
      | some best ↦ claimed best
      | none ↦
          if first.saw_up
          then shed shed_saturated
          else elim second.best [ some best ↦ claimed best | none ↦ shed shed_all_dark ]
    ]

abbrev pub add_active : Peer → Peer
add_active c = record c { active = c.active + 1 }

abbrev pub claim_at : List Peer → ℕ → List Peer
claim_at peers idx = elim (get_elem? peers idx) [
  | none ↦ peers
  | some c ↦ set peers idx (add_active c)
]

-- `RoundTrip`, up to the round-trip.
unfoldable pub admit : Balancer → Balancer × Choice
unfolding choose
admit l = if length l.peers == 0 then (l, shed shed_empty) else elim (choose l) [
  | shed reason ↦ (record l { cursor = next32 l.cursor }, shed reason)
  | claimed best ↦
      (record l { cursor = next32 l.cursor; peers = claim_at l.peers best.idx }, claimed best)
]
