-- ===== src/Upstream/LeastConn/Slots.antt =====
-- pkg/upstream/leastconn.go: `claim`, and the one release of each slot, on one peer and at one atomic
-- access at a time.
use parapet.Prelude.{
  zero, suc, refl, sym, total-set, arith, All, All-get, All-set, All-replicate, ℕ, ◌+◌, ◌-◌, ◌<◌,
  ◌≤◌, ◌≡◌, ◌≢◌, List, some, get_elem?, set, total, replicate,
}

-- Where a request stands.
pub data Slot : Type 0 where
  -- before the peer is chosen
  outside : Slot
  -- before the test of the cap in `claim`, with `expected`
  claiming : (expected : ℕ) → Slot
  -- before the compare-and-swap
  swapping : (expected : ℕ) → Slot
  -- in the transport's `RoundTrip`; `dec` has not run
  running : Slot
  -- the response is returned, and its body is to be closed
  streaming : Slot
  -- `dec` has run; the body may be closed again
  released : Slot

abbrev pub holds : Slot → ℕ
holds running = 1
holds streaming = 1
holds _ = 0

-- The peer's count and the requests.
pub record Pool : Type 0 where
  pub active : ℕ
  pub requests : List Slot

abbrev pub at : Pool → ℕ → ℕ → Slot → Pool
at s a i q = record { active = a; requests = set s.requests i q }

-- `cap` is 0 for a peer without one. The scan in `pick` reads the count while it is under the cap.
pub data Move (cap : ℕ) (s : Pool) : Pool → Type 0 where
  observe :
      (i : ℕ)
      → get_elem? s.requests i ≡ some outside
      → Move cap s (at s s.active i (claiming s.active))
  claim_uncapped :
      (i expected : ℕ)
      → get_elem? s.requests i ≡ some (claiming expected)
      → cap ≡ 0
      → Move cap s (at s (s.active + 1) i running)
  claim_filled :
      (i expected : ℕ)
      → get_elem? s.requests i ≡ some (claiming expected)
      → cap ≢ 0
      → cap ≤ expected
      → Move cap s (at s s.active i outside)
  claim_under :
      (i expected : ℕ)
      → get_elem? s.requests i ≡ some (claiming expected)
      → expected < cap
      → Move cap s (at s s.active i (swapping expected))
  swap :
      (i expected : ℕ)
      → get_elem? s.requests i ≡ some (swapping expected)
      → s.active ≡ expected
      → Move cap s (at s (expected + 1) i running)
  lose :
      (i expected : ℕ)
      → get_elem? s.requests i ≡ some (swapping expected)
      → s.active ≢ expected
      → Move cap s (at s s.active i (claiming s.active))
  -- a panic, an error or a response without a body
  balance :
      (i : ℕ) → get_elem? s.requests i ≡ some running → Move cap s (at s (s.active - 1) i released)
  hand_over :
      (i : ℕ) → get_elem? s.requests i ≡ some running → Move cap s (at s s.active i streaming)
  close :
      (i : ℕ)
      → get_elem? s.requests i ≡ some streaming
      → Move cap s (at s (s.active - 1) i released)
  close_again :
      (i : ℕ) → get_elem? s.requests i ≡ some released → Move cap s (at s s.active i released)

pub data Run (cap n : ℕ) : Pool → Type 0 where
  idle : Run cap n (record { active = 0; requests = replicate n outside })
  step : {s t : Pool} → Run cap n s → Move cap s t → Run cap n t

-- A swap is only tried from below the cap.
abbrev pub IsUnder : ℕ → Slot → Type 0
IsUnder cap (swapping expected) = expected < cap
IsUnder cap _ = Unit

pub record IsExact (cap : ℕ) (s : Pool) : Type 0 where
  pub counted : s.active ≡ total holds s.requests
  pub capped : cap ≢ 0 → s.active ≤ cap
  pub under : All (IsUnder cap) s.requests

-- A request that moves: the count has to change as its share does.
at-IsExact :
    {cap : ℕ} {s : Pool} (a i : ℕ) (p q : Slot)
    → get_elem? s.requests i ≡ some p
    → a + holds p ≡ s.active + holds q
    → (cap ≢ 0 → a ≤ cap)
    → IsUnder cap q
    → IsExact cap s
    → IsExact cap (at s a i q)
at-IsExact {cap} {s} a i p q here share capped under h = record {
  counted = omega (arith, total-set holds s.requests i p q here, h.counted);
  capped = capped;
  under = All-set (IsUnder cap) s.requests i q h.under under;
}

some_hold :
    {cap : ℕ} {s : Pool} (i : ℕ) (p : Slot)
    → IsExact cap s
    → get_elem? s.requests i ≡ some p
    → holds p ≤ s.active
some_hold {cap} {s} i p h here =
    omega (arith, total-set holds s.requests i p released here, h.counted)

give_back :
    {cap : ℕ} {s : Pool} (i : ℕ) (p : Slot)
    → get_elem? s.requests i ≡ some p
    → holds p ≡ 1
    → IsExact cap s
    → IsExact cap (at s (s.active - 1) i released)
give_back {cap} {s} i p here one h =
    at-IsExact (s.active - 1) i p released here (omega (arith, some_hold i p h here))
      (λ c. omega (arith, h.capped c)) tt h

Move-IsExact : {cap : ℕ} {s t : Pool} → Move cap s t → IsExact cap s → IsExact cap t
Move-IsExact {s} (observe i here) h =
    at-IsExact s.active i outside (claiming s.active) here refl h.capped tt h
Move-IsExact {s} (claim_uncapped i expected here none) h =
    at-IsExact (s.active + 1) i (claiming expected) running here (omega arith)
      (λ c. absurd (c none)) tt h
Move-IsExact {s} (claim_filled i expected here some_cap filled) h =
    at-IsExact s.active i (claiming expected) outside here refl h.capped tt h
Move-IsExact {s} (claim_under i expected here lt) h =
    at-IsExact s.active i (claiming expected) (swapping expected) here refl h.capped lt h
Move-IsExact {cap} {s} (swap i expected here same) h =
    let under : expected < cap = All-get (IsUnder cap) s.requests i h.under here in
    at-IsExact (expected + 1) i (swapping expected) running here (omega arith) (λ c. omega arith) tt
      h
Move-IsExact {s} (lose i expected here other) h =
    at-IsExact s.active i (swapping expected) (claiming s.active) here refl h.capped tt h
Move-IsExact (balance i here) h = give_back i running here refl h
Move-IsExact {s} (hand_over i here) h =
    at-IsExact s.active i running streaming here refl h.capped tt h
Move-IsExact (close i here) h = give_back i streaming here refl h
Move-IsExact {s} (close_again i here) h =
    at-IsExact s.active i released released here refl h.capped tt h

total_outside : (n : ℕ) → total holds (replicate n outside) ≡ 0
unfolding total replicate
total_outside zero = refl
total_outside (suc n) = omega (arith, total_outside n)

-- However the requests interleave, the count of a peer is the number of requests that run or stream
-- there, each of which gives its slot back once, and a cap is never exceeded.
pub Run-IsExact : {cap n : ℕ} {s : Pool} → Run cap n s → IsExact cap s
Run-IsExact {cap} {n} idle = record {
  counted = sym (total_outside n);
  capped = λ c. omega arith;
  under = All-replicate (IsUnder cap) n outside tt;
}
Run-IsExact (step r m) = Move-IsExact m (Run-IsExact r)
