-- ===== src/Upstream/HealthCheck/Sound.antt =====
-- The invariant of `start`, `Close` and the probers.
use parapet.Prelude.{
  total, total-set, total-replicate, replicate, ℕ, List, [], ◌∷◌, Option, some, Bool, true, false,
  ◌≡◌, ◌≢◌, ◌<◌, ◌≤◌, refl, map, get_elem?, set, All, arith, ◌∙◌, Bool-cases, Option-cases, sym,
  subst, inl, inr,
}
use parapet.Upstream.HealthCheck.Config.{Config}
use parapet.Upstream.HealthCheck.Cause.{Answer}
use parapet.Upstream.HealthCheck.Observe.{ProbeTarget}
use parapet.Upstream.HealthCheck.Life.{
  move, Prober, entering, probing, judged, waiting, gone, fresh, inited, started, Life, unstarted,
  lift, init, decide, close, leave, enter, judge, record_verdict, Step, init_step, decide_step,
  close_step, return_step, return_close, cancel_step, enter_step, judge_step, observe_step,
  tick_step, leave_step, Attempt, Reach, here, next, probe_verdict,
}

-- Whether the goroutine still counts in the wait group, and how many do.
abbrev pub runs : Prober → ℕ
runs gone = 0
runs _ = 1

abbrev pub live : List Prober → ℕ
live = total runs

abbrev pub IsUp : ProbeTarget → Type 0
IsUp t = t.up ≡ true

All-lift : (ts : List ProbeTarget) → All IsUp (map lift ts)
All-lift [] = tt
All-lift (t ∷ ts) = (refl, All-lift ts)

-- The state at every moment: the wait group counts the goroutines that run, there are none unless
-- `start` spawned them, a start that found the check closed left every target up, and once a call of
-- `Close` has returned none runs.
pub record IsSound (s : Life) : Type 0 where
  pub counted : s.wg ≡ live s.probers
  pub unspawned : s.published ≡ false → s.probers ≡ []
  pub early : s.phase ≡ fresh → s.published ≡ false
  pub undecided : s.phase ≡ inited → s.published ≡ false
  pub cancels : s.closed ≡ true → s.published ≡ true → s.cancelled ≡ true
  pub lifted : s.phase ≡ started → s.published ≡ false → All IsUp s.targets
  -- a call of `Close` closes, and none returns while a goroutine runs
  pub ordered : s.returns ≤ s.calls
  pub shut : 0 < s.calls → s.closed ≡ true
  pub drained : 0 < s.returns → s.wg ≡ 0

pub no_prober : {ps : List Prober} (i : ℕ) {p : Prober} → ps ≡ [] → get_elem? ps i ≡ some p → ⊥
no_prober {ps} i e at = cc

pub none_live :
    (ps : List Prober) (i : ℕ) (p : Prober) → runs p ≡ 1 → get_elem? ps i ≡ some p → live ps ≡ 0 → ⊥
none_live ps i p r at z = omega (arith, total-set runs ps i p gone at)

pub unstarted-IsSound : IsSound unstarted
unfolding unstarted total
unstarted-IsSound = record {
  counted = refl;
  unspawned = λ _. refl;
  early = λ _. refl;
  undecided = λ _. refl;
  cancels = λ e. cc;
  lifted = λ e. cc;
  ordered = omega arith;
  shut = λ e. absurd (omega arith);
  drained = λ e. refl;
}

running_published :
    {s : Life} (i : ℕ) {p : Prober}
    → IsSound s
    → get_elem? s.probers i ≡ some p
    → s.published ≡ true
running_published {s} i h at = elim (Bool-cases s.published) [
  | inl e ↦ e
  | inr e ↦ absurd (no_prober i (h.unspawned e) at)
]

-- A prober that runs goes on running, and the targets may change.
go_on-IsSound :
    {s : Life} (i : ℕ) (p q : Prober) (ts : List ProbeTarget)
    → get_elem? s.probers i ≡ some p
    → runs p ≡ 1
    → runs q ≡ 1
    → IsSound s
    → IsSound (record s { probers = set s.probers i q; targets = ts })
go_on-IsSound {s} i p q ts at rp rq h =
    let spawned = running_published i h at in
    record {
      counted = omega (arith, total-set runs s.probers i p q at, h.counted);
      unspawned = λ e. cc;
      early = h.early;
      undecided = h.undecided;
      cancels = h.cancels;
      lifted = λ _ e. cc;
      ordered = h.ordered;
      shut = h.shut;
      drained = h.drained;
    }

leave-IsSound :
    {s : Life} (i : ℕ) (p : Prober)
    → get_elem? s.probers i ≡ some p
    → runs p ≡ 1
    → IsSound s
    → IsSound (leave s i)
leave-IsSound {s} i p at rp h =
    let spawned = running_published i h at in
    record {
      counted = omega (arith, total-set runs s.probers i p gone at, h.counted);
      unspawned = λ e. cc;
      early = h.early;
      undecided = h.undecided;
      cancels = h.cancels;
      lifted = λ _ e. cc;
      ordered = h.ordered;
      shut = h.shut;
      drained = λ e. omega (arith, h.drained e);
    }

init-IsSound : (c : Config) (n : ℕ) (s : Life) → s.phase ≡ fresh → IsSound s → IsSound (init c n s)
unfolding init
init-IsSound c n s e h = record {
  counted = h.counted;
  unspawned = h.unspawned;
  early = λ f. cc;
  undecided = λ _. h.early e;
  cancels = h.cancels;
  lifted = λ f. cc;
  ordered = h.ordered;
  shut = h.shut;
  drained = h.drained;
}

pub true_ne_false : true ≡ false → ⊥
true_ne_false e = absurd (cc)

pub decide_of_closed :
    (n : ℕ) (done : Bool) (s : Life)
    → s.closed ≡ true
    → decide n done s ≡ record s { phase = started; targets = map lift s.targets }
unfolding decide
decide_of_closed n done s e = ground arith

decide_of_open :
    (n : ℕ) (done : Bool) (s : Life)
    → s.closed ≡ false
    → decide n done s ≡ record s {
      phase = started;
      published = true;
      cancelled = done;
      wg = n;
      probers = replicate n entering;
    }
unfolding decide
decide_of_open n done s e = ground arith

decide-IsSound :
    (n : ℕ) (done : Bool) (s : Life) → s.phase ≡ inited → IsSound s → IsSound (decide n done s)
decide-IsSound n done s e h = elim (Bool-cases s.closed) [
  | inl closed ↦ subst IsSound (sym (decide_of_closed n done s closed)) (record {
    counted = h.counted;
    unspawned = h.unspawned;
    early = λ f. cc;
    undecided = λ f. cc;
    cancels = h.cancels;
    lifted = λ _ _. All-lift s.targets;
    ordered = h.ordered;
    shut = h.shut;
    drained = h.drained;
  })
  | inr unclosed ↦ subst IsSound (sym (decide_of_open n done s unclosed)) (record {
    counted = sym (total-replicate runs n entering refl);
    unspawned = λ f. cc;
    early = λ f. cc;
    undecided = λ f. cc;
    cancels = λ f _. cc;
    lifted = λ _ f. cc;
    ordered = h.ordered;
    shut = λ f. h.shut f;
    drained = λ f. absurd (true_ne_false (sym (h.shut (omega (arith, h.ordered))) ∙ unclosed));
  })
]

enter_of_done : (s : Life) (i : ℕ) → s.cancelled ≡ true → enter s i ≡ leave s i
unfolding enter
enter_of_done s i e = ground arith

enter_of_live : (s : Life) (i : ℕ) → s.cancelled ≡ false → enter s i ≡ move s i probing
unfolding enter
enter_of_live s i e = ground arith

enter-IsSound :
    (s : Life) (i : ℕ) → get_elem? s.probers i ≡ some entering → IsSound s → IsSound (enter s i)
enter-IsSound s i at h = elim (Bool-cases s.cancelled) [
  | inl e ↦ subst IsSound (sym (enter_of_done s i e)) (leave-IsSound i entering at refl h)
  | inr e ↦
      subst IsSound (sym (enter_of_live s i e))
        (go_on-IsSound i entering probing s.targets at refl refl h)
]

judge-IsSound :
    (is_healthy : Option (Answer → Bool)) (attempt : Attempt) (s : Life) (i : ℕ)
    → get_elem? s.probers i ≡ some probing
    → IsSound s
    → IsSound (judge is_healthy attempt s i)
unfolding judge
judge-IsSound is_healthy attempt s i at h =
    elim (Option-cases (probe_verdict is_healthy attempt s.cancelled)) [
      | inl e ↦ rw (e, judge) (go_on-IsSound i probing waiting s.targets at refl refl h)
      | inr (v, e) ↦
          rw (e, judge) (go_on-IsSound i probing (judged v.0 v.1) s.targets at refl refl h)
    ]

pub undecided_unspawned : {s : Life} → IsSound s → s.phase ≢ started → s.published ≡ false
undecided_unspawned {s} h ne = ground (arith, h.early, h.undecided)

module _ (c : Config) (is_healthy : Option (Answer → Bool)) (n : ℕ) where
  pub Step-IsSound : {s u : Life} → Step c is_healthy n s u → IsSound s → IsSound u
  unfolding close return_close enter judge record_verdict probe_verdict
  Step-IsSound {s} (init_step e) h = init-IsSound c n s e h
  Step-IsSound {s} (decide_step done e) h = decide-IsSound n done s e h
  Step-IsSound {s} close_step h = record {
    counted = h.counted;
    unspawned = h.unspawned;
    early = h.early;
    undecided = h.undecided;
    cancels = λ _ e. rw e (ground arith);
    lifted = h.lifted;
    ordered = omega (arith, h.ordered);
    shut = λ _. refl;
    drained = h.drained;
  }
  Step-IsSound {s} (return_step more none_runs) h = record {
    counted = h.counted;
    unspawned = h.unspawned;
    early = h.early;
    undecided = h.undecided;
    cancels = h.cancels;
    lifted = h.lifted;
    ordered = omega arith;
    shut = h.shut;
    drained = λ _. none_runs;
  }
  Step-IsSound {s} (cancel_step e) h = record {
    counted = h.counted;
    unspawned = h.unspawned;
    early = h.early;
    undecided = h.undecided;
    cancels = λ _ _. refl;
    lifted = h.lifted;
    ordered = h.ordered;
    shut = h.shut;
    drained = h.drained;
  }
  Step-IsSound {s} (enter_step i at) h = enter-IsSound s i at h
  Step-IsSound {s} (judge_step i attempt at) h = judge-IsSound is_healthy attempt s i at h
  Step-IsSound {s} (observe_step i ok cause t at target) h =
      go_on-IsSound i (judged ok cause) waiting _ at refl refl h
  Step-IsSound {s} (tick_step i at) h = go_on-IsSound i waiting probing s.targets at refl refl h
  Step-IsSound {s} (leave_step i at e) h = leave-IsSound i waiting at refl h

  pub Reach-IsSound : {s u : Life} → Reach c is_healthy n s u → IsSound s → IsSound u
  Reach-IsSound here h = h
  Reach-IsSound (next r st) h = Step-IsSound st (Reach-IsSound r h)
