-- ===== src/Upstream/Ejecting/Race.antt =====
-- pkg/upstream/ejecting.go, `eject`: concurrent calls on one target, an atomic access at a time.
use parapet.Prelude.{
  ℕ, ◌+◌, ◌<◌, ◌≤◌, ◌≡◌, ◌≢◌, sym, subst, ℕ_discrete, refl, List, [], ◌∷◌, zero, suc, ap, get_elem?,
  some, arith,
}
use mathlib.Core.Option.{some-injective}
use parapet.Upstream.CircuitBreaker.Word.{next32}
use parapet.Upstream.Ejecting.{Config, ejection_timeout}
use parapet.Upstream.Ejecting.Health.{IsConfigured, ejection_timeout_bounds}

-- A committed ejection: the clock's reading of the call that made it, and its end.
pub record Window : Type 0 where
  pub from : ℕ
  pub until : ℕ

-- The words of the target, and its ejections since the last success, newest first.
pub record Shared : Type 0 where
  pub ejected_until : ℕ
  pub ejections : ℕ
  pub windows : List Window

-- Where a call stands, with the local variables that are live there.
pub data Pc : Type 0 where
  idle : Pc
  -- at the head of the loop
  looping : (now : ℕ) → Pc
  -- `prev` is read and not in the future
  loaded : (now prev : ℕ) → Pc
  -- before the compare-and-swap
  counted : (now prev e : ℕ) → Pc
  -- before `ejections.Store(e)`
  won : (e : ℕ) → Pc

module _ (c : Config) where
  abbrev pub window_of : ℕ → ℕ → Window
  window_of now e = record { from = now; until = now + ejection_timeout c e }

  -- One access of one call. A success of another request may clear the target at any moment.
  pub data Move (s : Shared) : Pc → Shared → Pc → Type 0 where
    enter : (now : ℕ) → Move s idle s (looping now)
    already : {now : ℕ} → now < s.ejected_until → Move s (looping now) s idle
    load : {now : ℕ} → s.ejected_until ≤ now → Move s (looping now) s (loaded now s.ejected_until)
    count : {now prev : ℕ} → Move s (loaded now prev) s (counted now prev (next32 s.ejections))
    swap :
        {now prev e : ℕ}
        → s.ejected_until ≡ prev
        → Move s
            (counted now prev e)
            (record s {
              ejected_until = now + ejection_timeout c e;
              windows = window_of now e ∷ s.windows;
            })
            (won e)
    lose : {now prev e : ℕ} → s.ejected_until ≢ prev → Move s (counted now prev e) s (looping now)
    store : {e : ℕ} → Move s (won e) (record s { ejections = e }) idle
    clear : Move s idle (record s { ejected_until = 0; windows = [] }) idle
    reset : Move s idle (record s { ejections = 0 }) idle

  -- Any number of calls, one of which moves at a time.
  pub data Run : Shared → (ℕ → Pc) → Type 0 where
    fresh : (e : ℕ) → Run (record { ejected_until = 0; ejections = e; windows = [] }) (λ _. idle)
    step :
        {s t : Shared} {pc pc' : ℕ → Pc} (i : ℕ)
        → Run s pc
        → Move s (pc i) t (pc' i)
        → ((j : ℕ) → i ≢ j → pc' j ≡ pc j)
        → Run t pc'

-- Windows that are over by an instant, each of them over before the next one starts.
abbrev pub Before : ℕ → List Window → Type 0
Before at [] = Unit
Before at (w ∷ ws) = (w.until ≤ at) × (w.from < w.until) × Before w.from ws

abbrev pub Linked : ℕ → List Window → Type 0
Linked until [] = until ≡ 0
Linked until (w ∷ ws) = (until ≡ w.until) × (w.from < w.until) × Before w.from ws

-- What a call has seen is not in the future of its reading of the clock.
abbrev pub IsPast : Pc → Type 0
IsPast (loaded now prev) = prev ≤ now
IsPast (counted now prev e) = prev ≤ now
IsPast _ = Unit

pub record IsSpaced (s : Shared) (pc : ℕ → Pc) : Type 0 where
  pub linked : Linked s.ejected_until s.windows
  pub past : (i : ℕ) → IsPast (pc i)

Linked-Before : (until now : ℕ) (ws : List Window) → Linked until ws → until ≤ now → Before now ws
Linked-Before until now [] h le = tt
Linked-Before until now (w ∷ ws) h le = (omega arith, h.1, h.2)

-- An instant of a window.
abbrev pub Runs : ℕ → Window → Type 0
Runs at w = (w.from ≤ at) × (at < w.until)

-- All of these windows are over by then.
over_by :
    (now : ℕ) (ws : List Window) (i : ℕ) (w : Window)
    → Before now ws
    → get_elem? ws i ≡ some w
    → w.until ≤ now
over_by now [] i w h e = absurd (cc)
over_by now (v ∷ ws) zero w h e = subst (λ (x : Window). x.until ≤ now) (some-injective v w e) h.0
over_by now (v ∷ ws) (suc i) w h e = omega (arith, over_by v.from ws i w h.2 e)

one-Runs :
    (now at : ℕ) (ws : List Window) (i j : ℕ) (w v : Window)
    → Before now ws
    → get_elem? ws i ≡ some w
    → get_elem? ws j ≡ some v
    → Runs at w
    → Runs at v
    → i ≡ j
one-Runs now at [] i j w v h e f run also = absurd (cc)
one-Runs now at (x ∷ ws) zero zero w v h e f run also = refl
one-Runs now at (x ∷ ws) zero (suc j) w v h e f run also =
    let here : Runs at x = subst (Runs at) (sym (some-injective x w e)) run in
    absurd (omega (arith, over_by x.from ws j v h.2 f))
one-Runs now at (x ∷ ws) (suc i) zero w v h e f run also =
    let here : Runs at x = subst (Runs at) (sym (some-injective x v f)) also in
    absurd (omega (arith, over_by x.from ws i w h.2 e))
one-Runs now at (x ∷ ws) (suc i) (suc j) w v h e f run also =
    ap suc (one-Runs x.from at ws i j w v h.2 e f run also)

module _ (c : Config) (configured : IsConfigured c) where
  Move-Linked :
      {s t : Shared} {p q : Pc}
      → Move c s p t q
      → IsPast p
      → Linked s.ejected_until s.windows
      → Linked t.ejected_until t.windows × IsPast q
  Move-Linked (enter now) past h = (h, tt)
  Move-Linked (already lt) past h = (h, tt)
  Move-Linked (load le) past h = (h, le)
  Move-Linked count past h = (h, past)
  Move-Linked {s} (swap {now} {prev} {e} same) past h = (
    (
      refl,
      omega (arith, ejection_timeout_bounds c e configured),
      Linked-Before s.ejected_until now s.windows h (omega arith),
    ),
    tt,
  )
  Move-Linked (lose ne) past h = (h, tt)
  Move-Linked store past h = (h, tt)
  Move-Linked clear past h = (refl, tt)
  Move-Linked reset past h = (h, tt)

  -- However the calls interleave, each ejection starts after the end of the one before it, unless a
  -- success came between.
  pub Run-IsSpaced : {s : Shared} {pc : ℕ → Pc} → Run c s pc → IsSpaced s pc
  Run-IsSpaced (fresh e) = record { linked = refl; past = λ i. tt }
  Run-IsSpaced (step {s} {t} {pc} {pc'} i r m others) =
      let before = Run-IsSpaced r in
      let after = Move-Linked m (before.past i) before.linked in
      record {
        linked = after.0;
        past = λ j. elim (ℕ_discrete i j) [
          | yes e ↦ subst (λ (k : ℕ). IsPast (pc' k)) e after.1
          | no ne ↦ subst IsPast (sym (others j ne)) (before.past j)
        ];
      }

  -- A burst is one ejection: however the calls interleave, of the ejections since the last success no two
  -- run at the same instant.
  pub burst_once :
      {s : Shared} {pc : ℕ → Pc} (at i j : ℕ) (w v : Window)
      → Run c s pc
      → get_elem? s.windows i ≡ some w
      → get_elem? s.windows j ≡ some v
      → i ≢ j
      → Runs at w
      → ¬ Runs at v
  burst_once {s} at i j w v r e f apart run also = apart (
      one-Runs s.ejected_until at s.windows i j w v
        (Linked-Before s.ejected_until s.ejected_until s.windows (Run-IsSpaced r).linked
          (omega arith))
        e f run also)
