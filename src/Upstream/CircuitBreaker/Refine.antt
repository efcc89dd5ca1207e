-- ===== src/Upstream/CircuitBreaker/Refine.antt =====
-- `admit` implements the phase machine.
use parapet.Prelude.{ℕ, dec_lt, ℕ_discrete, ◌-◌, ◌≤◌, ◌<◌, ◌≡◌, Option, none, some, arith}
use parapet.Upstream.CircuitBreaker.Word.{
  cb_closed, cb_open, cb_half_open, next32, cb_pack, cb_unpack, unpack-pack, unpack-claim,
}
use parapet.Upstream.CircuitBreaker.Config.{Config, IsConfigured}
use parapet.Upstream.CircuitBreaker.Breaker.{Breaker, Admission, admit_probe, admit, transition}
use parapet.Upstream.CircuitBreaker.Phases.{view, IsValid, promised}
use parapet.Upstream.CircuitBreaker.Admit.{
  admit_of_closed, admit_of_cooling, admit_of_room, admit_of_full, admit_of_expired, admit_of_stuck,
}

-- The admission without its generation stamp.
abbrev pub unstamped : Option (Option (ℕ × Admission)) → Option (Option Admission)
unstamped none = none
unstamped (some none) = some none
unstamped (some (some (gen, adm))) = some (some adm)

-- What a call of `admit` keeps of the promise: the new phase, the answer, and that a probe carries
-- the generation of the word it left.
pub record Keeps (c : Config) (now clock : ℕ) (b : Breaker)
    (r : Breaker × Option (Option (ℕ × Admission))) : Type 0 where
  pub phase : view r.0 ≡ (promised c now clock (view b)).0
  pub answer : unstamped r.1 ≡ some (promised c now clock (view b)).1
  pub stamp : (g : ℕ) → r.1 ≡ some (some (g, admit_probe)) → g ≡ (cb_unpack r.0.word).gen
  pub valid : IsValid c r.0

module _ (c : Config) (now clock : ℕ) (b : Breaker) (k : IsConfigured c) (v : IsValid c b)
    (m : now ≤ clock) where
  closed-Keeps : (cb_unpack b.word).state ≡ cb_closed → Keeps c now clock b (admit c now clock b)
  unfolding view promised
  closed-Keeps e = rw (admit_of_closed c now clock b k v e) (record {
    phase = ground arith;
    answer = ground arith;
    stamp = λ g h. ground arith;
    valid = v;
  })

  cooling-Keeps :
      (cb_unpack b.word).state ≡ cb_open
      → now < b.opened_until
      → Keeps c now clock b (admit c now clock b)
  unfolding view promised
  cooling-Keeps e t = rw (admit_of_cooling c now clock b k v e t) (record {
    phase = ground arith;
    answer = ground arith;
    stamp = λ g h. ground arith;
    valid = v;
  })

  expired-Keeps :
      (cb_unpack b.word).state ≡ cb_open
      → b.opened_until ≤ now
      → Keeps c now clock b (admit c now clock b)
  unfolding view promised
  expired-Keeps e t =
      let w = cb_pack (next32 (cb_unpack b.word).gen) 0 cb_half_open in
      let u =
        unpack-pack (next32 (cb_unpack b.word).gen) 0 cb_half_open (omega arith) (omega arith)
          (omega arith) in
      let claimed = unpack-claim w in
      rw (admit_of_expired c now clock b k v e t) (record {
        phase = ground (arith, claimed);
        answer = ground (arith, claimed);
        stamp = λ g h. ground (arith, claimed);
        valid = record {
          known = ground (arith, claimed);
          budget = ground (arith, claimed, k.slots);
          idle = ground (arith, claimed);
        };
      })

  room-Keeps :
      (cb_unpack b.word).state ≡ cb_half_open
      → (cb_unpack b.word).probes < c.half_open_max_probes
      → Keeps c now clock b (admit c now clock b)
  unfolding view promised
  room-Keeps e t =
      let claimed = unpack-claim b.word in
      rw (admit_of_room c now clock b k v e t) (record {
        phase = ground (arith, claimed, k.bounded);
        answer = ground (arith, claimed);
        stamp = λ g h. ground (arith, claimed, k.bounded);
        valid = record {
          known = ground (arith, claimed, k.bounded);
          budget = ground (arith, claimed, k.bounded);
          idle = ground (arith, claimed, k.bounded);
        };
      })

  full-Keeps :
      (cb_unpack b.word).state ≡ cb_half_open
      → c.half_open_max_probes ≤ (cb_unpack b.word).probes
      → now - b.half_open_since ≤ c.probe_timeout
      → Keeps c now clock b (admit c now clock b)
  unfolding view promised
  full-Keeps e h t = rw (admit_of_full c now clock b k v e h t) (record {
    phase = ground arith;
    answer = ground arith;
    stamp = λ g h. ground arith;
    valid = v;
  })

  stuck-Keeps :
      (cb_unpack b.word).state ≡ cb_half_open
      → c.half_open_max_probes ≤ (cb_unpack b.word).probes
      → c.probe_timeout < now - b.half_open_since
      → Keeps c now clock b (admit c now clock b)
  unfolding view promised transition
  stuck-Keeps e h t =
      let u =
        unpack-pack (next32 (cb_unpack b.word).gen) 0 cb_open (omega arith) (omega arith)
          (omega arith) in
      rw (admit_of_stuck c now clock b k v e h t m) (record {
        phase = ground arith;
        answer = ground arith;
        stamp = λ g h. ground arith;
        valid = record { known = ground arith; budget = ground arith; idle = ground arith };
      })

-- On a valid breaker `admit` answers within its three rounds, as the phase machine promises: CLOSED
-- admits, OPEN refuses until its cooldown has run out and then admits one probe, HALF-OPEN admits
-- probes up to the budget and re-opens when a full budget has overstayed `ProbeTimeout`.
pub admit-Keeps :
    (c : Config) (now clock : ℕ) (b : Breaker)
    → IsConfigured c
    → IsValid c b
    → now ≤ clock
    → Keeps c now clock b (admit c now clock b)
admit-Keeps c now clock b k v m = elim (ℕ_discrete (cb_unpack b.word).state cb_closed) [
  | yes e ↦ closed-Keeps c now clock b k v m e
  | no not_closed ↦ elim (ℕ_discrete (cb_unpack b.word).state cb_open) [
    | yes e ↦ elim (dec_lt now b.opened_until) [
      | yes t ↦ cooling-Keeps c now clock b k v m e t
      | no t ↦ expired-Keeps c now clock b k v m e (omega arith)
    ]
    | no not_open ↦
        let e : (cb_unpack b.word).state ≡ cb_half_open = omega (arith, v.known) in
        elim (dec_lt (cb_unpack b.word).probes c.half_open_max_probes) [
          | yes room ↦ room-Keeps c now clock b k v m e room
          | no full ↦ elim (dec_lt c.probe_timeout (now - b.half_open_since)) [
            | yes stuck ↦ stuck-Keeps c now clock b k v m e (omega arith) stuck
            | no fresh ↦ full-Keeps c now clock b k v m e (omega arith) (omega arith)
          ]
        ]
  ]
]
