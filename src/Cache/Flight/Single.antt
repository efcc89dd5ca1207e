-- ===== src/Cache/Flight/Single.antt =====
-- Any number of concurrent misses.
use parapet.Prelude.{
  ℕ, zero, suc, ◌+◌, ◌<◌, ◌≤◌, ◌≡◌, ◌≢◌, refl, sym, ap, ◌∙◌, subst, inr, none, some, true, false,
  arith,
}
use parapet.Prelude.Assoc
use mathlib.Core.Option.{some-injective}
use parapet.GoStrings.{Text}
use parapet.Cache.Flight.{
  Table, new, acquire, Pc, asking, leading, closing, waiting, woken, fetching, served, Move, lead,
  join, wake, timeout, hit, again, leave, fetch, unlock, shut, Run, fresh, step,
}
use parapet.Cache.Flight.Owned.{owned, lock_of, Coming, IsSingle, quiet-IsSingle}
use parapet.Cache.Flight.Lead.{lead-IsSingle}
use parapet.Cache.Flight.Release.{forget-IsSingle, shut-IsSingle}

-- A request that joins leaves the table as it is.
join_table : (t : Table) (key : Text) (id : ℕ) → lock_of key t ≡ some id → (acquire key t).0 ≡ t
unfolding acquire
join_table t key id e = ground arith

acquire_joins :
    (t : Table) (key : Text) → (acquire key t).2 ≡ false → lock_of key t ≡ some (acquire key t).1
unfolding acquire
acquire_joins t key e = ground arith

acquire_leads :
    (t : Table) (key : Text)
    → (acquire key t).2 ≡ true
    → (lock_of key t ≡ none) × ((acquire key t).1 ≡ t.made)
unfolding acquire
acquire_leads t key e = ground arith

waited : {a b m n : ℕ} {k l : Text} → waiting a k m ≡ waiting b l n → m ≡ n
waited e = cc

Move-IsSingle :
    (t u : Table) (i : ℕ) (pc pc' : ℕ → Pc) (p q : Pc)
    → ((j : ℕ) → i ≢ j → pc' j ≡ pc j)
    → Move t p u q
    → pc i ≡ p
    → pc' i ≡ q
    → IsSingle t pc
    → IsSingle u pc'
Move-IsSingle t u i pc pc' p q rest (lead {attempt} key leader) was is h =
    let (free, id) = acquire_leads t key leader in
    lead-IsSingle t i attempt key pc pc' rest was (is ∙ ap (leading key) id) free h
Move-IsSingle t u i pc pc' p q rest (join {attempt} key follower) was is h =
    let id = (acquire key t).1 in
    let there = acquire_joins t key follower in
    let (j, leads) = h.led key id there in
    subst (λ (x : Table). IsSingle x pc') (sym (join_table t key id there))
      (quiet-IsSingle t i pc pc' rest (ap owned was) (ap owned is)
        (λ a k m e. inr (j, ap owned leads ∙ ap some (waited (sym is ∙ e)))) h)
Move-IsSingle t u i pc pc' p q rest (wake done) was is h =
    quiet-IsSingle t i pc pc' rest (ap owned was) (ap owned is) (λ a k m e. absurd (cc)) h
Move-IsSingle t u i pc pc' p q rest timeout was is h =
    quiet-IsSingle t i pc pc' rest (ap owned was) (ap owned is) (λ a k m e. absurd (cc)) h
Move-IsSingle t u i pc pc' p q rest hit was is h =
    quiet-IsSingle t i pc pc' rest (ap owned was) (ap owned is) (λ a k m e. absurd (cc)) h
Move-IsSingle t u i pc pc' p q rest (again now ne more) was is h =
    quiet-IsSingle t i pc pc' rest (ap owned was) (ap owned is) (λ a k m e. absurd (cc)) h
Move-IsSingle t u i pc pc' p q rest (leave now why) was is h =
    quiet-IsSingle t i pc pc' rest (ap owned was) (ap owned is) (λ a k m e. absurd (cc)) h
Move-IsSingle t u i pc pc' p q rest fetch was is h =
    quiet-IsSingle t i pc pc' rest (ap owned was) (ap owned is) (λ a k m e. absurd (cc)) h
Move-IsSingle t u i pc pc' p q rest (unlock {key} {id}) was is h =
    forget-IsSingle t i key id pc pc' rest was is h
Move-IsSingle t u i pc pc' p q rest (shut {id}) was is h = shut-IsSingle t i id pc pc' rest was is h

new-IsSingle : IsSingle new (λ _. asking 0)
unfolding new Assoc.get
new-IsSingle = record {
  held = λ i key id e. absurd (cc);
  led = λ key id e. absurd (cc);
  sole = λ i j id a b. absurd (cc);
  unclosed = λ i id a. refl;
  below = λ i id a. absurd (cc);
  past = λ id c. absurd (cc);
  awaited = λ i a key id e. absurd (cc);
}

Run-IsSingle : {t : Table} {pc : ℕ → Pc} → Run t pc → IsSingle t pc
Run-IsSingle fresh = new-IsSingle
Run-IsSingle (step {t} {u} {pc} {pc'} i r m rest) =
    Move-IsSingle t u i pc pc' (pc i) (pc' i) rest m refl refl (Run-IsSingle r)

-- However the misses interleave, and whatever Vary they learn on the way: of two requests that fill for
-- the same key at the same time there is only one; the map holds a lock exactly while its leader fills;
-- no channel is closed twice; and a lock that a request waits for is closed already or has a request
-- that is to close it.
pub single_flight :
    {t : Table} {pc : ℕ → Pc}
    → Run t pc
    → ((i j : ℕ) (key : Text) (m n : ℕ) → pc i ≡ leading key m → pc j ≡ leading key n → i ≡ j)
      × ((key : Text) (id : ℕ) → lock_of key t ≡ some id → (i : ℕ) × (pc i ≡ leading key id))
      × ((i id : ℕ) → pc i ≡ closing id → t.closed id ≡ false)
      × ((i attempt : ℕ) (key : Text) (id : ℕ) → pc i ≡ waiting attempt key id → Coming t pc id)
single_flight {t} {pc} r =
    let h = Run-IsSingle r in
    (
      (λ i j key m n a b.
          let same : m ≡ n = some-injective m n (sym (h.held i key m a) ∙ h.held j key n b) in
          h.sole i j m (ap owned a) (ap owned b ∙ ap some (sym same))),
      h.led,
      (λ i id a. h.unclosed i id (ap owned a)),
      h.awaited,
    )

-- The moves that one request makes, while the others change the table as they like.
pub data Moves : ℕ → Pc → Type 0 where
  begin : Moves 0 (asking 0)
  more : {n : ℕ} {p q : Pc} {t u : Table} → Moves n p → Move t p u q → Moves (suc n) q

-- How many moves a request has left.
left : Pc → ℕ
left (asking zero) = 7
left (asking (suc a)) = 4
left (waiting zero key id) = 6
left (waiting (suc a) key id) = 3
left (woken zero key) = 5
left (woken (suc a) key) = 2
left (leading key id) = 2
left (closing id) = 1
left fetching = 1
left served = 0

Move-left : {t u : Table} {p q : Pc} → Move t p u q → left q < left p
unfolding left
Move-left (lead {attempt = zero} key leader) = omega arith
Move-left (lead {attempt = suc a} key leader) = omega arith
Move-left (join {attempt = zero} key follower) = omega arith
Move-left (join {attempt = suc a} key follower) = omega arith
Move-left (wake {attempt = zero} done) = omega arith
Move-left (wake {attempt = suc a} done) = omega arith
Move-left (timeout {attempt = zero}) = omega arith
Move-left (timeout {attempt = suc a}) = omega arith
Move-left (hit {attempt = zero}) = omega arith
Move-left (hit {attempt = suc a}) = omega arith
Move-left (again {attempt = zero} now ne few) = omega arith
Move-left (again {attempt = suc a} now ne few) = absurd (omega arith)
Move-left (leave {attempt = zero} now why) = omega arith
Move-left (leave {attempt = suc a} now why) = omega arith
Move-left fetch = omega arith
Move-left unlock = omega arith
Move-left shut = omega arith

Moves-left : {n : ℕ} {p : Pc} → Moves n p → n + left p ≤ 7
unfolding left
Moves-left begin = omega arith
Moves-left (more m mv) = omega (arith, Moves-left m, Move-left mv)

-- A request that misses makes at most seven moves, whatever the others do and whatever keys it
-- is given on the way: the loop ends.
pub misses_end : {n : ℕ} {p : Pc} → Moves n p → n ≤ 7
misses_end m = omega (arith, Moves-left m)
