-- ===== src/Upstream/CircuitBreaker/Stale.antt =====
-- Probes whose generation has passed.
use parapet.Prelude.{ℕ, ◌+◌, ◌-◌, ◌≡◌, ◌<◌, ◌≢◌, ◌^◌, if◌then◌else◌, true, false, arith}
use parapet.Upstream.CircuitBreaker.Word.{next32, cb_unpack}
use parapet.Upstream.CircuitBreaker.Config.{Config}
use parapet.Upstream.CircuitBreaker.Breaker.{Breaker, admit_probe, reaches, record_outcome}
use parapet.Upstream.CircuitBreaker.Phases.{view, IsValid, closed, half_open}
use parapet.Upstream.CircuitBreaker.Records.{probed, view-record_probe}

-- A stale probe moves neither the word nor the cooldown: if it failed the breaker is as it was, and
-- if it succeeded only the count of successes has grown.
pub stale_probe :
    (c : Config) (clock : ℕ) (b : Breaker) (gen : ℕ)
    → gen ≢ (cb_unpack b.word).gen
    → (record_outcome c clock b gen admit_probe true ≡ b)
      × (record_outcome c clock b gen admit_probe false
          ≡ record b { successes = next32 b.successes })
unfolding record_outcome
stale_probe c clock b gen h = (ground arith, ground arith)

fresh_success :
    (c : Config) (u : ℕ) (b : Breaker) (p since s trips : ℕ)
    → IsValid c b
    → view b ≡ half_open p since s trips
    → view (record_outcome c u b (cb_unpack b.word).gen admit_probe false) ≡ (
        if reaches (next32 s) c.success_threshold
        then closed 0
        else half_open (p - 1) since (next32 s) trips)
unfolding record_outcome probed
fresh_success c u b p since s trips v e =
    ground (arith, view-record_probe c u b v (cb_unpack b.word).gen false)

view_counted :
    (b : Breaker) (p since s trips : ℕ)
    → view b ≡ half_open p since s trips
    → view (record b { successes = next32 b.successes }) ≡ half_open p since (next32 s) trips
unfolding view
view_counted b p since s trips e = ground arith

-- That count is the one that heals: with two successes missing, the success of a probe of an
-- earlier generation and one success of the current generation close the target, although the
-- current generation alone is a success short.
pub stale_success_heals :
    (c : Config) (t u : ℕ) (b : Breaker) (old p since s trips : ℕ)
    → IsValid c b
    → view b ≡ half_open p since s trips
    → old ≢ (cb_unpack b.word).gen
    → s + 2 ≡ c.success_threshold
    → c.success_threshold < 2 ^ 31
    → let gen = (cb_unpack b.word).gen in
      (view (record_outcome c u (record_outcome c t b old admit_probe false) gen admit_probe false)
        ≡ closed 0)
      × (view (record_outcome c u b gen admit_probe false) ≡ half_open (p - 1) since (s + 1) trips)
stale_success_heals c t u b old p since s trips v e h n small =
    let (_, once) = stale_probe c t b old h in
    let counted : Breaker = record b { successes = next32 b.successes } in
    let valid : IsValid c counted = record { known = v.known; budget = v.budget; idle = v.idle } in
    let first =
      fresh_success c u counted p since (next32 s) trips valid (view_counted b p since s trips e) in
    let alone = fresh_success c u b p since s trips v e in
    (rw once (ground (arith, first)), ground (arith, alone))
