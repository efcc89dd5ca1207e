-- ===== src/RateLimit/LeakyBucket/Spacing.antt =====
-- The granted requests of a key are spaced, whatever is swept, and when they start.
use parapet.Prelude.{
  subst, leb→le, Bool-cases, ℕ, zero, suc, ◌+◌, ◌-◌, ◌*◌, ◌≤◌, ◌≡◌, ◌⊎◌, refl, List, [], ◌∷◌,
  Option, none, some, leb, arith, inl, inr,
}
use parapet.RateLimit.LeakyBucket.{LeakyBucket, new, sweep_interval}
use parapet.RateLimit.LeakyBucket.Slots.{
  Op, Spaced, IsLate, started_by, note, IsOrdered, step, slot_of, run_slots, free_at, IsKept,
  step-IsKept,
}

module _ {K : Type 0} (dec : Discrete K) where
  note-Spaced :
      (per now floor before later : ℕ) (s : Option ℕ) (xs : List ℕ)
      → IsKept dec now per before later s
      → (floor ≤ before) ⊎ (floor ≤ now)
      → ((g : ℕ) → (g ≤ later) ⊎ (g ≤ now) → Spaced per g xs)
      → Spaced per floor (note s xs)
  note-Spaced per now floor before later none xs kept f rest = rest floor (ground arith)
  note-Spaced per now floor before later (some x) xs kept f rest =
      (ground arith, rest (x + per) (inl (omega (arith, kept.2))))

  run_slots-Spaced :
      (key : K) (ops : List (ℕ × Op K)) (b : LeakyBucket K) (t floor : ℕ)
      → b.per_request ≤ sweep_interval b
      → IsOrdered t ops
      → (floor ≤ free_at dec b key) ⊎ (floor ≤ t)
      → Spaced b.per_request floor (run_slots dec key b ops)
  unfolding run_slots sweep_interval
  run_slots-Spaced key [] b t floor h o f = tt
  run_slots-Spaced key ((now, op) ∷ ops) b t floor h o f =
      let (kept, same_per, same_sweep) = step-IsKept dec b now op key h in
      let (b', out) = step dec b now op in
      note-Spaced b.per_request now floor (free_at dec b key) (free_at dec b' key)
        (slot_of dec key now out) (run_slots dec key b' ops) kept (ground (arith, o.0))
        (λ g free.
          subst (λ p. Spaced p g (run_slots dec key b' ops)) same_per
            (run_slots-Spaced key ops b' now g (ground (arith, same_per, same_sweep, h)) o.1 free))

  one_more :
      (n s per floor t : ℕ)
      → (n ≡ 0) ⊎ (s + per + n * per ≤ t + per)
      → (floor ≤ s) × (s ≤ t)
      → floor + (n + 1) * per ≤ t + per
  one_more n s per floor t (inl e) h = rw e (omega (arith, h.0, h.1))
  one_more n s per floor t (inr le) h = omega (arith, h.0)

  started_by_lem :
      (per floor t : ℕ) (ss xs : List ℕ)
      → Spaced per floor ss
      → IsLate ss xs
      → (started_by t xs ≡ 0) ⊎ (floor + started_by t xs * per ≤ t + per)
  started_by_lem per floor t [] [] h late = inl refl
  started_by_lem per floor t [] (x ∷ xs) h late = elim late [ ]
  started_by_lem per floor t (s ∷ ss) [] h late = elim late [ ]
  started_by_lem per floor t (s ∷ ss) (x ∷ xs) h late =
      let rest = started_by_lem per (s + per) t ss xs h.1 late.1 in
      elim (Bool-cases (leb x t)) [
        | inl by_then ↦
            rw (by_then, started_by)
              (inr (
                one_more (started_by t xs) s per floor t rest
                  (h.0, omega (arith, leb→le x t by_then, late.0))))
        | inr later ↦
            rw (later, started_by)
              (elim rest [ inl none_yet ↦ inl none_yet | inr le ↦ inr (omega (arith, h.0)) ])
      ]

  all_but_one : (n per t0 t : ℕ) → (n ≡ 0) ⊎ (t0 + n * per ≤ t + per) → (n - 1) * per ≤ t - t0
  all_but_one zero per t0 t h = omega arith
  all_but_one (suc n) per t0 t (inl e) = absurd (omega arith)
  all_but_one (suc n) per t0 t (inr le) =
      let one_less : suc n - 1 ≡ n = omega arith in
      let spread : suc n * per ≡ per + n * per = omega arith in rw one_less (omega (arith, spread))

  -- Whatever requests of whatever keys come to a new strategy from time `t0` on, sleep and wake, and
  -- however often it is swept, if the clock does not run backward: the slots of the granted requests of
  -- a key are at least `PerRequest` apart, in the order in which they were granted; and if each starts
  -- at its slot or later, then of those that start by time `t` all but one fit between `t0` and `t` at
  -- `PerRequest` each.
  pub slots-Spaced :
      (per size : ℕ) (key : K) (t0 t : ℕ) (ops : List (ℕ × Op K)) (starts : List ℕ)
      → IsOrdered t0 ops
      → IsLate (run_slots dec key (new per size) ops) starts
      → Spaced per t0 (run_slots dec key (new per size) ops)
        × ((started_by t starts - 1) * per ≤ t - t0)
  unfolding new sweep_interval
  slots-Spaced per size key t0 t ops starts o late =
      let spaced =
        run_slots-Spaced key ops (new per size) t0 t0 (ground arith) o (inr (omega arith)) in
      (
        spaced,
        all_but_one (started_by t starts) per t0 t
            (started_by_lem per t0 t (run_slots dec key (new per size) ops) starts spaced late),
      )
