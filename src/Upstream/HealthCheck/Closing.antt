-- ===== src/Upstream/HealthCheck/Closing.antt =====
-- `Close` against `start` and the probers.
use parapet.Prelude.{ℕ, [], Option, Bool, true, false, ◌≡◌, ◌≢◌, ◌<◌, refl, All, ◌∙◌, sym, subst}
use parapet.Upstream.HealthCheck.Config.{Config}
use parapet.Upstream.HealthCheck.Cause.{Answer}
use parapet.Upstream.HealthCheck.Life.{
  entering, probing, judged, waiting, started, Life, unstarted, init, close, Step, init_step,
  decide_step, close_step, return_step, return_close, cancel_step, enter_step, judge_step,
  observe_step, tick_step, leave_step, Reach, here, next,
}
use parapet.Upstream.HealthCheck.Sound.{
  IsUp, IsSound, no_prober, none_live, unstarted-IsSound, true_ne_false, decide_of_closed,
  undecided_unspawned, Reach-IsSound,
}

module _ (c : Config) (is_healthy : Option (Answer → Bool)) (n : ℕ) where
  -- After `start` and with no prober left, nothing writes to a target.
  Step-final :
      {s u : Life}
      → Step c is_healthy n s u
      → s.phase ≡ started
      → s.wg ≡ 0
      → IsSound s
      → (u.phase ≡ started) × (u.wg ≡ 0) × (u.targets ≡ s.targets)
  unfolding close return_close
  Step-final (init_step e) p z h = absurd (cc)
  Step-final (decide_step done e) p z h = absurd (cc)
  Step-final close_step p z h = (p, z, refl)
  Step-final (return_step more none_runs) p z h = (p, z, refl)
  Step-final (cancel_step e) p z h = (p, z, refl)
  Step-final {s} (enter_step i at) p z h =
      absurd (none_live s.probers i entering refl at (sym h.counted ∙ z))
  Step-final {s} (judge_step i attempt at) p z h =
      absurd (none_live s.probers i probing refl at (sym h.counted ∙ z))
  Step-final {s} (observe_step i ok cause t at target) p z h =
      absurd (none_live s.probers i (judged ok cause) refl at (sym h.counted ∙ z))
  Step-final {s} (tick_step i at) p z h =
      absurd (none_live s.probers i waiting refl at (sym h.counted ∙ z))
  Step-final {s} (leave_step i at e) p z h =
      absurd (none_live s.probers i waiting refl at (sym h.counted ∙ z))

  Reach-final :
      {s u : Life}
      → Reach c is_healthy n s u
      → s.phase ≡ started
      → s.wg ≡ 0
      → IsSound s
      → (u.phase ≡ started) × (u.wg ≡ 0) × (u.targets ≡ s.targets)
  Reach-final here p z h = (p, z, refl)
  Reach-final (next r st) p z h =
      let before = Reach-final r p z h in
      let after = Step-final st before.0 before.1 (Reach-IsSound c is_healthy n r h) in
      (after.0, after.1, after.2 ∙ before.2)

  -- A `Close` that came before the probers were spawned.
  pub record IsShut (s : Life) : Type 0 where
    pub shut : s.closed ≡ true
    pub unspawned : s.published ≡ false

  Step-IsShut : {s u : Life} → Step c is_healthy n s u → IsSound s → IsShut s → IsShut u
  unfolding init close return_close
  Step-IsShut (init_step e) h k = record { shut = k.shut; unspawned = k.unspawned }
  Step-IsShut {s} (decide_step done e) h k =
      subst IsShut (sym (decide_of_closed n done s k.shut))
        (record { shut = k.shut; unspawned = k.unspawned })
  Step-IsShut close_step h k = record { shut = refl; unspawned = k.unspawned }
  Step-IsShut (return_step more none_runs) h k = record { shut = k.shut; unspawned = k.unspawned }
  Step-IsShut {s} (cancel_step e) h k = absurd (true_ne_false (sym e ∙ k.unspawned))
  Step-IsShut (enter_step i at) h k = absurd (no_prober i (h.unspawned k.unspawned) at)
  Step-IsShut (judge_step i attempt at) h k = absurd (no_prober i (h.unspawned k.unspawned) at)
  Step-IsShut (observe_step i ok cause t at target) h k =
      absurd (no_prober i (h.unspawned k.unspawned) at)
  Step-IsShut (tick_step i at) h k = absurd (no_prober i (h.unspawned k.unspawned) at)
  Step-IsShut (leave_step i at e) h k = absurd (no_prober i (h.unspawned k.unspawned) at)

  Reach-IsShut : {s u : Life} → Reach c is_healthy n s u → IsSound s → IsShut s → IsShut u
  Reach-IsShut here h k = k
  Reach-IsShut (next r st) h k =
      Step-IsShut st (Reach-IsSound c is_healthy n r h) (Reach-IsShut r h k)

  -- However `start`, `Close` and the probers interleave: once `start` has run and a call of `Close` has
  -- returned, no later step changes a target; and if a call of `Close` has passed its mutex before
  -- `start` decides, then after `start` there is no prober and every target is up.
  pub close_final :
      {s u : Life}
      → Reach c is_healthy n unstarted s
      → Reach c is_healthy n s u
      → (0 < s.returns → s.phase ≡ started → u.targets ≡ s.targets)
        × (0 < s.calls
            → s.phase ≢ started
            → u.phase ≡ started
            → (u.probers ≡ []) × All IsUp u.targets)
  close_final {s} {u} r q =
      let sound = Reach-IsSound c is_healthy n r unstarted-IsSound in
      let after = Reach-IsSound c is_healthy n q sound in
      (
        (λ back p. (Reach-final q p (sound.drained back) sound).2),
        λ called unstarted_yet p.
            let k = Reach-IsShut q sound (record {
              shut = sound.shut called;
              unspawned = undecided_unspawned sound unstarted_yet;
            }) in
            (after.unspawned k.unspawned, after.lifted p k.unspawned),
      )
