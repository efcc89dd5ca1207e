-- ===== src/Upstream/Hedging/Ends.antt =====
-- The race is over after a bounded number of turns.
use parapet.Prelude.{
  ℕ, suc, ◌+◌, ◌*◌, ◌<◌, ◌≤◌, ◌≡◌, ◌≢◌, refl, List, [], ◌∷◌, none, some, Bool, true, false, ltb,
  get_elem?, length, length-append, total, arith, Bool-cases, inl, inr, ◌⊎◌, ◌∙◌,
}
use parapet.Upstream.Hedging.{Leg, running, Supervisor, start, launch, on_result, on_timer, on_done}
use parapet.Upstream.Hedging.Count.{
  finished_of, finished-append, finished-map-cancel, finished-le, length-map-cancel, counts,
}
use parapet.Upstream.Hedging.Race.{Step, result, tick, leave, Run, begin, turn}

-- After n turns: at most `max` legs are launched, each result is received once, and those that are not
-- received when the race is over are left to the reaper. The timer is armed exactly while a hedge
-- remains.
pub record IsSound (max n : ℕ) (s : Supervisor) : Type 0 where
  pub launched_eq : s.launched ≡ length s.legs
  pub within : s.launched ≤ max
  pub counted : s.received ≡ finished_of s.legs
  pub short : s.reply ≡ none → s.received < max
  pub armed : s.reply ≡ none → s.timer ≡ ltb s.launched max
  pub spent : s.reply ≡ none → suc n ≤ s.launched + s.received
  pub balanced : s.reply ≢ none → s.received + s.reaping ≡ s.launched
  pub idle : s.reply ≡ none → s.reaping ≡ 0
  pub bounded : n ≤ 2 * max

Step-IsSound :
    {max n : ℕ} {on_error : Bool} {s t : Supervisor}
    → Step max on_error s t
    → IsSound max n s
    → IsSound max (suc n) t
unfolding on_result on_timer on_done launch
Step-IsSound {max} {n} {on_error} {s} (result idx res l going at f) h =
    let c = counts res.body idx s.legs l at f in
    record {
      launched_eq = ground (arith, h.launched_eq, c.lost_size, c.won_size, c.more_size);
      within = ground (arith, h.within);
      counted = ground (arith, h.counted, c.lost, c.won, c.more);
      short = λ e. ground (arith, h.short going);
      armed = λ e. ground (arith, h.armed going);
      spent = λ e. ground (arith, h.spent going);
      balanced = λ e. ground (arith, h.launched_eq, h.counted, c.room, h.within, h.idle going);
      idle = λ e. ground (arith, h.idle going);
      bounded = omega (arith, h.spent going, h.short going, h.within);
    }
Step-IsSound {max} {n} {on_error} {s} (tick going armed) h = record {
  launched_eq = ground (arith, h.launched_eq, length-append s.legs (running ∷ []));
  within = ground (arith, h.within);
  counted = ground (arith, h.counted, finished-append s.legs);
  short = λ e. ground (arith, h.short going);
  armed = λ e. ground (arith, h.armed going);
  spent = λ e. ground (arith, h.spent going, h.armed going);
  balanced = λ e. absurd (ground (arith, e));
  idle = λ e. ground (arith, h.idle going);
  bounded = omega (arith, h.spent going, h.short going, h.within);
}
Step-IsSound {max} {n} {on_error} {s} (leave going) h = record {
  launched_eq = omega (arith, h.launched_eq, length-map-cancel s.legs);
  within = h.within;
  counted = omega (arith, h.counted, finished-map-cancel s.legs);
  short = λ e. absurd (cc);
  armed = λ e. absurd (cc);
  spent = λ e. absurd (cc);
  balanced = λ _. omega (arith, h.launched_eq, h.counted, finished-le s.legs);
  idle = λ e. absurd (cc);
  bounded = omega (arith, h.spent going, h.short going, h.within);
}

start-IsSound : (max : ℕ) → 1 < max → IsSound max 0 start
unfolding start total
start-IsSound max p = record {
  launched_eq = refl;
  within = omega arith;
  counted = refl;
  short = λ _. omega arith;
  armed = λ _. ground arith;
  spent = λ _. omega arith;
  balanced = λ e. absurd (e refl);
  idle = λ _. refl;
  bounded = omega arith;
}

Run-IsSound :
    {max : ℕ} {on_error : Bool} {n : ℕ} {s : Supervisor}
    → 1 < max
    → Run max on_error n s
    → IsSound max n s
Run-IsSound {max} p begin = start-IsSound max p
Run-IsSound p (turn r st) = Step-IsSound st (Run-IsSound p r)

-- A leg whose result has not come, if fewer results came than legs were launched.
open_leg :
    (ls : List Leg)
    → finished_of ls < length ls
    → (idx : ℕ) × (l : Leg) × (get_elem? ls idx ≡ some l) × (l.finished ≡ false)
unfolding total
open_leg [] h = absurd (omega arith)
open_leg (l ∷ ls) h = elim (Bool-cases l.finished) [
  | inr f ↦ (0, l, refl, f)
  | inl f ↦ let (idx, l', at, f') = open_leg ls (ground arith) in (suc idx, l', at, f')
]

-- The race ends: with at least one hedge allowed, no run takes more than twice as many turns as there
-- are attempts, and while there is no reply the timer is armed or a leg is still to send its result, so
-- that the next turn comes. At most the allowed attempts are launched, and when the race is over the
-- reaper is left exactly the results that were not received.
pub Run_ends :
    {max : ℕ} {on_error : Bool} {n : ℕ} {s : Supervisor}
    → 1 < max
    → Run max on_error n s
    → (n ≤ 2 * max)
      × (s.launched ≤ max)
      × (s.reply ≢ none → s.received + s.reaping ≡ s.launched)
      × (s.reply ≡ none
          → (s.timer ≡ true)
            ⊎ ((idx : ℕ) × (l : Leg) × (get_elem? s.legs idx ≡ some l) × (l.finished ≡ false)))
Run_ends {max} {s} p r =
    let h = Run-IsSound p r in
    (
      h.bounded,
      h.within,
      h.balanced,
      λ going. elim (Bool-cases (ltb s.launched max)) [
        | inl more ↦ inl (h.armed going ∙ more)
        | inr all ↦
            inr
              (open_leg s.legs (ground (arith, h.short going, h.counted, h.launched_eq, h.within)))
      ],
    )
