-- ===== src/Upstream/CircuitBreaker/Records.antt =====
-- `record`, and the phase machine that it implements.
use parapet.Prelude.{ℕ, ◌+◌, ◌-◌, ◌≡◌, Bool, true, false, arith, ◌==◌, if◌then◌else◌}
use parapet.Upstream.CircuitBreaker.Word.{
  cb_closed, cb_open, next32, cb_unpack, unpack-pack, unpack-release,
}
use parapet.Upstream.CircuitBreaker.Config.{Config, cooldown}
use parapet.Upstream.CircuitBreaker.Breaker.{
  Breaker, reaches, record_outcome, admit_closed, admit_probe, Admission, record_probe,
  record_closed,
}
use parapet.Upstream.CircuitBreaker.Phases.{Phase, view, IsValid, closed, opened, half_open}

-- A probe's outcome; `fresh` says that it was admitted in the current generation. A stale success
-- moves no probe and no state, and still counts.
unfoldable pub probed : Config → ℕ → Bool → Bool → Phase → Phase
probed c clock fresh failed (closed f) = closed f
probed c clock fresh failed (opened until trips s) =
    opened until trips (if failed then s else next32 s)
probed c clock false failed (half_open p since s trips) =
    half_open p since (if failed then s else next32 s) trips
probed c clock true true (half_open p since s trips) =
    opened (clock + cooldown c (next32 trips)) (next32 trips) 0
probed c clock true false (half_open p since s trips) =
    if reaches (next32 s) c.success_threshold
    then closed 0
    else half_open (p - 1) since (next32 s) trips

-- The outcome of a request that a CLOSED target admitted.
unfoldable pub routed : Config → ℕ → ℕ → Bool → Phase → Phase
routed c clock trips false (closed f) = closed 0
routed c clock trips true (closed f) =
    if reaches (next32 f) c.failure_threshold
    then opened (clock + cooldown c (next32 trips)) (next32 trips) 0
    else closed (next32 f)
routed c clock trips failed p = p

module _ (c : Config) (clock : ℕ) (b : Breaker) (v : IsValid c b) where
  -- The outcome of a probe moves the phase as the phase machine says, by whether its generation is
  -- the current one.
  pub view-record_probe :
      (gen : ℕ) (failed : Bool)
      → view (record_probe c clock b gen failed)
        ≡ probed c clock ((cb_unpack b.word).gen == gen) failed (view b)
  unfolding view record_probe probed
  view-record_probe gen failed = ground (
    arith,
    v.known,
    unpack-pack (next32 gen) 0 cb_open,
    unpack-pack (next32 gen) 0 cb_closed,
    unpack-release b.word,
  )

  -- The outcome of a request that a CLOSED target admitted moves the phase as the phase machine
  -- says.
  pub view-record_closed :
      (failed : Bool)
      → view (record_closed c clock b failed) ≡ routed c clock b.generations failed (view b)
  unfolding view record_closed routed
  view-record_closed failed =
      ground (arith, v.known, unpack-pack (next32 (cb_unpack b.word).gen) 0 cb_open)

  -- Whatever a request reports, and however stale it is, the breaker stays valid: a release never
  -- takes a slot that is not held, and a transition leaves no probe behind.
  pub record_outcome-IsValid :
      (gen : ℕ) (adm : Admission) (failed : Bool)
      → IsValid c (record_outcome c clock b gen adm failed)
  unfolding record_outcome
  record_outcome-IsValid gen admit_probe failed = record {
    known = ground (
      arith,
      v.known,
      unpack-pack (next32 gen) 0 cb_open,
      unpack-pack (next32 gen) 0 cb_closed,
      unpack-release b.word,
    );
    budget = ground (
      arith,
      v.budget,
      unpack-pack (next32 gen) 0 cb_open,
      unpack-pack (next32 gen) 0 cb_closed,
      unpack-release b.word,
    );
    idle = ground (
      arith,
      v.idle,
      unpack-pack (next32 gen) 0 cb_open,
      unpack-pack (next32 gen) 0 cb_closed,
      unpack-release b.word,
    );
  }
  record_outcome-IsValid gen admit_closed failed = record {
    known = ground (arith, v.known, unpack-pack (next32 (cb_unpack b.word).gen) 0 cb_open);
    budget = ground (arith, v.budget, unpack-pack (next32 (cb_unpack b.word).gen) 0 cb_open);
    idle = ground (arith, v.idle, unpack-pack (next32 (cb_unpack b.word).gen) 0 cb_open);
  }

  -- The machine's move on any report.
  abbrev pub recorded : ℕ → Admission → Bool → Phase → Phase
  recorded gen admit_probe failed p = probed c clock ((cb_unpack b.word).gen == gen) failed p
  recorded gen admit_closed failed p = routed c clock b.generations failed p

  -- The generation of the packed word moves exactly with its state.
  gen-record_probe :
      (gen : ℕ) (failed : Bool)
      → let before = cb_unpack b.word in
        let after = cb_unpack (record_probe c clock b gen failed).word in
        after.gen ≡ (if after.state == before.state then before.gen else next32 before.gen)
  unfolding record_probe
  gen-record_probe gen failed = ground (
    arith,
    v.known,
    unpack-pack (next32 gen) 0 cb_open,
    unpack-pack (next32 gen) 0 cb_closed,
    unpack-release b.word,
  )

  gen-record_closed :
      (failed : Bool)
      → let before = cb_unpack b.word in
        let after = cb_unpack (record_closed c clock b failed).word in
        after.gen ≡ (if after.state == before.state then before.gen else next32 before.gen)
  unfolding record_closed
  gen-record_closed failed =
      ground (arith, v.known, unpack-pack (next32 (cb_unpack b.word).gen) 0 cb_open)

  -- Whatever a request reports, and however stale it is: the breaker stays valid, its phase moves as the
  -- phase machine says of the report, where a probe's counts as fresh if it was admitted in the current
  -- generation, and the generation is the next one if the state changes and the same if not.
  pub record_outcome-Keeps :
      (gen : ℕ) (adm : Admission) (failed : Bool)
      → let b' = record_outcome c clock b gen adm failed in
        let before = cb_unpack b.word in
        let after = cb_unpack b'.word in
        IsValid c b'
        × (view b' ≡ recorded gen adm failed (view b))
        × (after.gen ≡ (if after.state == before.state then before.gen else next32 before.gen))
  unfolding record_outcome
  record_outcome-Keeps gen admit_probe failed = (
    record_outcome-IsValid gen admit_probe failed,
    view-record_probe gen failed,
    gen-record_probe gen failed,
  )
  record_outcome-Keeps gen admit_closed failed = (
    record_outcome-IsValid gen admit_closed failed,
    view-record_closed failed,
    gen-record_closed failed,
  )

  -- A failure that does not trip a CLOSED target leaves the trip count alone.
  pub generations-record_closed :
      (f : ℕ)
      → view (record_closed c clock b true) ≡ closed f
      → (record_closed c clock b true).generations ≡ b.generations
  unfolding view record_closed
  generations-record_closed f e =
      ground (arith, unpack-pack (next32 (cb_unpack b.word).gen) 0 cb_open)
