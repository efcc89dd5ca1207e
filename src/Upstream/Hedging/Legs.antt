-- ===== src/Upstream/Hedging/Legs.antt =====
-- What the race does to each of its legs: its context, its result and the body of its response.
use parapet.Prelude.{
  ℕ, zero, suc, ◌+◌, ◌≡◌, ◌≢◌, refl, List, [], ◌∷◌, ◌++◌, Option, none, some, Bool, true, false,
  ltb, not, ◌&&◌, ◌==◌, if◌then◌else◌, map, get_elem?, arith, Bool-cases, inl, inr, ◌⊎◌, subst, sym,
  ap, ◌∙◌,
}
use mathlib.Core.Option.{some-injective}
use parapet.Upstream.Hedging.{
  Leg, running, cancel, HedgeResult, Supervisor, Reply, winner, failed, disconnected, start, launch,
  error_of, first_of, cancel_others, wrap_winner, lose, on_result, on_timer, on_done,
}
use parapet.Upstream.Hedging.Race.{Step, result, tick, leave, Run, begin, turn}

-- The context of a leg that has sent its result is released and its body closed.
pub record IsReleased (l : Leg) : Type 0 where
  pub context : l.cancelled ≡ l.finished
  pub body : l.closed ≡ l.finished

-- A leg that is given up; what is still to come is for the reaper to close.
pub record IsGivenUp (l : Leg) : Type 0 where
  pub context : l.cancelled ≡ true
  pub body : l.closed ≡ l.finished

-- The leg whose response is passed on: its body is open and its context lives, unless there is no body.
pub record IsKept (has_body : Bool) (l : Leg) : Type 0 where
  pub sent : l.finished ≡ true
  pub context : l.cancelled ≡ not has_body
  pub body : l.closed ≡ false

-- What the leg with index k is left in, by what the race has replied.
pub Settles : Option Reply → ℕ → Leg → Type 0
Settles none k l = IsReleased l
Settles (some (failed e)) k l = IsReleased l
Settles (some disconnected) k l = IsGivenUp l
Settles (some (winner idx has_body)) k l = (k ≡ idx → IsKept has_body l) × (k ≢ idx → IsGivenUp l)

abbrev pub Settled : Option Reply → List Leg → Type 0
Settled reply ls = (k : ℕ) (l : Leg) → get_elem? ls k ≡ some l → Settles reply k l

get-lose :
    (idx : ℕ) (ls : List Leg) (k : ℕ) (l : Leg)
    → get_elem? (lose idx ls) k ≡ some l
    → IsReleased l ⊎ (get_elem? ls k ≡ some l)
unfolding lose
get-lose idx [] k l h = inr h
get-lose zero (x ∷ ls) zero l h =
    inl (subst IsReleased (some-injective _ _ h) (record { context = refl; body = refl }))
get-lose zero (x ∷ ls) (suc k) l h = inr h
get-lose (suc idx) (x ∷ ls) zero l h = inr h
get-lose (suc idx) (x ∷ ls) (suc k) l h = get-lose idx ls k l h

get-launch :
    (ls : List Leg) (k : ℕ) (l : Leg)
    → get_elem? (ls ++ running ∷ []) k ≡ some l
    → (running ≡ l) ⊎ (get_elem? ls k ≡ some l)
get-launch [] zero l h = inl (some-injective _ _ h)
get-launch [] (suc k) l h = absurd (cc)
get-launch (x ∷ ls) zero l h = inr h
get-launch (x ∷ ls) (suc k) l h = get-launch ls k l h

get-cancel :
    (ls : List Leg) (k : ℕ) (l : Leg)
    → get_elem? (map cancel ls) k ≡ some l
    → (old : Leg) × (get_elem? ls k ≡ some old) × (cancel old ≡ l)
get-cancel [] k l h = absurd (cc)
get-cancel (x ∷ ls) zero l h = (x, refl, some-injective _ _ h)
get-cancel (x ∷ ls) (suc k) l h = get-cancel ls k l h

abbrev after_win : Bool → ℕ → ℕ → Leg → Leg
after_win body idx k l = if k == idx then wrap_winner body l else cancel l

get-cancel_others :
    (body : Bool) (idx i : ℕ) (ls : List Leg) (k : ℕ) (l : Leg)
    → get_elem? (cancel_others body idx i ls) k ≡ some l
    → (old : Leg) × (get_elem? ls k ≡ some old) × (after_win body idx (i + k) old ≡ l)
unfolding cancel_others
get-cancel_others body idx i [] k l h = absurd (cc)
get-cancel_others body idx i (x ∷ ls) zero l h =
    (x, refl, subst (λ (m : ℕ). after_win body idx m x ≡ l) (omega arith) (some-injective _ _ h))
get-cancel_others body idx i (x ∷ ls) (suc k) l h =
    let (old, at, is) = get-cancel_others body idx (i + 1) ls k l h in
    (old, at, subst (λ (m : ℕ). after_win body idx m old ≡ l) (omega arith) is)

lose-Settled : (idx : ℕ) (ls : List Leg) → Settled none ls → Settled none (lose idx ls)
unfolding Settles
lose-Settled idx ls h k l at = elim (get-lose idx ls k l at) [ inl is ↦ is | inr was ↦ h k l was ]

launch-Settled : (ls : List Leg) → Settled none ls → Settled none (ls ++ running ∷ [])
unfolding Settles
launch-Settled ls h k l at = elim (get-launch ls k l at) [
  | inl is ↦ subst IsReleased is (record { context = refl; body = refl })
  | inr was ↦ h k l was
]

cancel-Settled : (ls : List Leg) → Settled none ls → Settled (some disconnected) (map cancel ls)
unfolding Settles
cancel-Settled ls h k l at =
    let (old, was, is) = get-cancel ls k l at in
    subst IsGivenUp is (record { context = refl; body = (h k old was).body })

cancel_others-Settled :
    (body : Bool) (idx : ℕ) (ls : List Leg) (won : Leg)
    → get_elem? ls idx ≡ some won
    → won.finished ≡ false
    → Settled none ls
    → Settled (some (winner idx body)) (cancel_others body idx 0 ls)
unfolding Settles
cancel_others-Settled body idx ls won there going h k l at =
    let (old, was, is) = get-cancel_others body idx 0 ls k l at in
    let released : IsReleased old = h k old was in
    (
      (λ same.
          let sender : old.finished ≡ false =
            subst (λ (o : Leg). o.finished ≡ false)
              (some-injective _ _ (sym there ∙ ap (get_elem? ls) (sym same) ∙ was)) going in
          record {
            sent = ground (arith, is, same);
            context = ground (arith, is, same, released.context);
            body = ground (arith, is, same, released.body);
          }),
      (λ other. record { context = ground (arith, is); body = ground (arith, is, released.body) }),
    )

Settled_eq :
    (r : Option Reply) (ls : List Leg) {r' : Option Reply} {ls' : List Leg}
    → r' ≡ r
    → ls' ≡ ls
    → Settled r ls
    → Settled r' ls'
Settled_eq r ls {r'} {ls'} er els h =
    subst (λ (x : Option Reply). Settled x ls') (sym er)
      (subst (λ (x : List Leg). Settled r x) (sym els) h)

result-Settled :
    (max : ℕ) (on_error : Bool) (idx : ℕ) (res : HedgeResult) (s : Supervisor) (won : Leg)
    → s.reply ≡ none
    → get_elem? s.legs idx ≡ some won
    → won.finished ≡ false
    → Settled none s.legs
    → Settled (on_result max on_error idx res s).reply (on_result max on_error idx res s).legs
unfolding on_result launch Settles
result-Settled max on_error idx res s won going at unsent before = elim (Bool-cases res.won) [
  | inl wins ↦
      Settled_eq (some (winner idx res.body)) (cancel_others res.body idx 0 s.legs) (ground arith)
        (ground arith) (cancel_others-Settled res.body idx s.legs won at unsent before)
  | inr loses ↦ elim (Bool-cases (s.received + 1 == max)) [
    | inl last ↦
        Settled_eq (some (failed (error_of (first_of s.first_err res.err)))) (lose idx s.legs)
          (ground arith) (ground arith) (lose-Settled idx s.legs before)
    | inr more ↦ elim (Bool-cases (on_error && ltb s.launched max)) [
      | inl hedge ↦
          Settled_eq none (lose idx s.legs ++ running ∷ []) (ground arith) (ground arith)
            (launch-Settled (lose idx s.legs) (lose-Settled idx s.legs before))
      | inr wait ↦
          Settled_eq none (lose idx s.legs) (ground arith) (ground arith)
            (lose-Settled idx s.legs before)
    ]
  ]
]

timer-Settled :
    (max : ℕ) (s : Supervisor)
    → s.reply ≡ none
    → Settled none s.legs
    → Settled (on_timer max s).reply (on_timer max s).legs
unfolding on_timer launch
timer-Settled max s going before = elim (Bool-cases (ltb s.launched max)) [
  | inl more ↦
      Settled_eq none (s.legs ++ running ∷ []) (ground arith) (ground arith)
        (launch-Settled s.legs before)
  | inr all ↦ Settled_eq none s.legs (ground arith) (ground arith) before
]

Step-Settled :
    {max : ℕ} {on_error : Bool} {s t : Supervisor}
    → Step max on_error s t
    → Settled s.reply s.legs
    → Settled t.reply t.legs
unfolding on_done
Step-Settled {max} {on_error} {s} (result idx res won going at unsent) h =
    result-Settled max on_error idx res s won going at unsent
      (subst (λ (r : Option Reply). Settled r s.legs) going h)
Step-Settled {max} {on_error} {s} (tick going armed) h =
    timer-Settled max s going (subst (λ (r : Option Reply). Settled r s.legs) going h)
Step-Settled {max} {on_error} {s} (leave going) h =
    cancel-Settled s.legs (subst (λ (r : Option Reply). Settled r s.legs) going h)

-- Whatever the results, the timer and the client do, and however they interleave: each leg that lost has
-- its context released and its body closed as soon as its result is received; once there is a winner its
-- body is not closed, its context is cancelled if its response has no body and not otherwise, and every
-- other leg is cancelled; and when the client leaves every leg is cancelled.
pub Run-Settles :
    {max : ℕ} {on_error : Bool} {n : ℕ} {s : Supervisor}
    → Run max on_error n s
    → (k : ℕ) (l : Leg) → get_elem? s.legs k ≡ some l
    → Settles s.reply k l
unfolding start Settles
Run-Settles begin zero l at =
    subst IsReleased (some-injective _ _ at) (record { context = refl; body = refl })
Run-Settles begin (suc k) l at = absurd (cc)
Run-Settles (turn r st) k l at = Step-Settled st (λ k' l' at'. Run-Settles r k' l' at') k l at
