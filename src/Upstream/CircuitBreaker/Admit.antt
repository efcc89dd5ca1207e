-- ===== src/Upstream/CircuitBreaker/Admit.antt =====
-- `admit`, branch by branch, and the phase machine that it implements.
use parapet.Prelude.{ℕ, ◌+◌, ◌-◌, ◌^◌, ◌≤◌, ◌<◌, ◌≡◌, none, some, arith}
use parapet.Upstream.CircuitBreaker.Word.{
  cb_closed, cb_open, cb_half_open, cb_probe_one, next32, cb_pack, cb_unpack, unpack-pack,
}
use parapet.Upstream.CircuitBreaker.Config.{Config, IsConfigured}
use parapet.Upstream.CircuitBreaker.Backoff.{cooldown_bounds}
use parapet.Upstream.CircuitBreaker.Breaker.{
  Breaker, admit_closed, admit_probe, admit, transition, emit,
}
use parapet.Upstream.State.{state_open, state_half_open, probe, expire}
use parapet.Upstream.CircuitBreaker.Phases.{IsValid}

pub unpack-gen-lt : (v : ℕ) → (cb_unpack v).gen < 2 ^ 32
unfolding cb_unpack
unpack-gen-lt v = omega arith

module _ (c : Config) (now clock : ℕ) (b : Breaker) (k : IsConfigured c) (v : IsValid c b) where
  pub admit_of_closed :
      (cb_unpack b.word).state ≡ cb_closed
      → admit c now clock b ≡ (b, some (some (0, admit_closed)))
  unfolding admit
  admit_of_closed e = ground arith

  pub admit_of_cooling :
      (cb_unpack b.word).state ≡ cb_open
      → now < b.opened_until
      → admit c now clock b ≡ (b, some none)
  unfolding admit
  admit_of_cooling e h = ground arith

  pub admit_of_room :
      (cb_unpack b.word).state ≡ cb_half_open
      → (cb_unpack b.word).probes < c.half_open_max_probes
      → admit c now clock b ≡ (
        record b { word = b.word + cb_probe_one },
        some (some ((cb_unpack b.word).gen, admit_probe)),
      )
  unfolding admit
  admit_of_room e h = ground arith

  pub admit_of_full :
      (cb_unpack b.word).state ≡ cb_half_open
      → c.half_open_max_probes ≤ (cb_unpack b.word).probes
      → now - b.half_open_since ≤ c.probe_timeout
      → admit c now clock b ≡ (b, some none)
  unfolding admit
  admit_of_full e h t = ground arith

  -- The flip to HALF-OPEN, and the slot that the picker then claims.
  abbrev pub flipped : Breaker
  flipped =
      emit
        (record b {
          half_open_since = now;
          word = cb_pack (next32 (cb_unpack b.word).gen) 0 cb_half_open;
        })
        state_open state_half_open probe

  pub admit_of_expired :
      (cb_unpack b.word).state ≡ cb_open
      → b.opened_until ≤ now
      → admit c now clock b ≡ (
        record flipped { word = flipped.word + cb_probe_one },
        some (some (next32 (cb_unpack b.word).gen, admit_probe)),
      )
  unfolding admit
  admit_of_expired e h =
      ground (arith, k.slots, unpack-pack (next32 (cb_unpack b.word).gen) 0 cb_half_open)

  pub admit_of_stuck :
      (cb_unpack b.word).state ≡ cb_half_open
      → c.half_open_max_probes ≤ (cb_unpack b.word).probes
      → c.probe_timeout < now - b.half_open_since
      → now ≤ clock
      → admit c now clock b
        ≡ ((transition c clock b (cb_unpack b.word).gen cb_half_open cb_open expire).0, some none)
  unfolding admit
  admit_of_stuck e h t m = ground (
    arith,
    unpack-pack (next32 (cb_unpack b.word).gen) 0 cb_open,
    cooldown_bounds c (next32 b.generations) k,
  )
