-- ===== src/Cache/Flight.antt =====
-- pkg/cache/cache.go, `acquire`, `release` and `fillAndServe`: concurrent misses around the fill locks.
use parapet.Prelude.{
  ℕ, suc, ◌+◌, ◌<◌, ◌≤◌, ◌≡◌, ◌≢◌, ◌⊎◌, List, [], Option, none, some, Bool, true, false, ◌==◌,
  if◌then◌else◌,
}
use parapet.Prelude.Assoc
use parapet.GoStrings.{Text, Text-discrete}
pub mod Owned
pub mod Lead
pub mod Release
pub mod Single

-- The map of the locks, by the variant's key, and the channel of each lock that was made: `closed` is
-- whether it is closed.
pub record Table : Type 0 where
  pub locks : List (Text × ℕ)
  pub made : ℕ
  pub closed : ℕ → Bool

unfoldable pub new : Table
new = record { locks = []; made = 0; closed = λ _. false }

-- The lock of a key, and whether the caller leads its fill.
unfoldable pub acquire : Text → Table → Table × ℕ × Bool
acquire key t = elim (Assoc.get Text-discrete key t.locks) [
  | some id ↦ (t, id, false)
  | none ↦ (
    record t { locks = Assoc.put Text-discrete key t.made t.locks; made = t.made + 1 },
    t.made,
    true,
  )
]

-- The two halves of `release`: under the mutex, and after it.
unfoldable pub forget : Text → Table → Table
forget key t = record t { locks = Assoc.delete Text-discrete key t.locks }

unfoldable pub close : ℕ → Table → Table
close id t = record t { closed = λ (j : ℕ). if j == id then true else t.closed j }

-- Where a request that misses stands.
pub data Pc : Type 0 where
  -- at the head of the loop
  asking : (attempt : ℕ) → Pc
  -- in `fill`, up to the release
  leading : (key : Text) (id : ℕ) → Pc
  -- the map has forgotten the lock, before `close(l.done)`
  closing : (id : ℕ) → Pc
  -- in the `select`
  waiting : (attempt : ℕ) (key : Text) (id : ℕ) → Pc
  -- before the second look into the storage
  woken : (attempt : ℕ) (key : Text) → Pc
  -- before the fetch of its own, past the loop
  fetching : Pc
  served : Pc

-- One access of one request. The key that `variantHash` gives may be another at each call, as the Vary
-- of the primary is learned; whether the storage hits is left open.
pub data Move (t : Table) : Pc → Table → Pc → Type 0 where
  lead :
      {attempt : ℕ} (key : Text)
      → (acquire key t).2 ≡ true
      → Move t (asking attempt) (acquire key t).0 (leading key (acquire key t).1)
  join :
      {attempt : ℕ} (key : Text)
      → (acquire key t).2 ≡ false
      → Move t (asking attempt) (acquire key t).0 (waiting attempt key (acquire key t).1)
  wake :
      {attempt id : ℕ} {key : Text}
      → t.closed id ≡ true
      → Move t (waiting attempt key id) t (woken attempt key)
  timeout : {attempt id : ℕ} {key : Text} → Move t (waiting attempt key id) t (woken attempt key)
  hit : {attempt : ℕ} {key : Text} → Move t (woken attempt key) t served
  again :
      {attempt : ℕ} {key : Text} (now : Text)
      → now ≢ key
      → suc attempt < 2
      → Move t (woken attempt key) t (asking (suc attempt))
  leave :
      {attempt : ℕ} {key : Text} (now : Text)
      → (now ≡ key) ⊎ (2 ≤ suc attempt)
      → Move t (woken attempt key) t fetching
  fetch : Move t fetching t served
  unlock : {key : Text} {id : ℕ} → Move t (leading key id) (forget key t) (closing id)
  shut : {id : ℕ} → Move t (closing id) (close id t) served

-- Any number of requests, one of which moves at a time.
pub data Run : Table → (ℕ → Pc) → Type 0 where
  fresh : Run new (λ _. asking 0)
  step :
      {t u : Table} {pc pc' : ℕ → Pc} (i : ℕ)
      → Run t pc
      → Move t (pc i) u (pc' i)
      → ((j : ℕ) → i ≢ j → pc' j ≡ pc j)
      → Run u pc'
