-- ===== src/Tests/Flight.antt =====
-- The fill locks of pkg/cache/cache.go at small inputs.
use parapet.Prelude.{ℕ, zero, suc, ◌≤◌, ◌≡◌, ◌≢◌, refl, some, true, false}
use parapet.Prelude.Assoc
use parapet.GoStrings.{codes, text_eq, Text, Text-discrete}
use parapet.Cache.Flight.{
  Table, new, acquire, forget, close, Pc, woken, Move, asking, leading, closing, waiting, served,
  lead, join, wake, hit, Run, fresh, step,
}
use parapet.Cache.Flight.Owned.{lock_of, Coming}
use parapet.Cache.Flight.Single.{single_flight, Moves, begin, more, misses_end}

abbrev page : Text
page = codes "p"

abbrev filling : Table
filling = (acquire page new).0

abbrev finished : Table
finished = close 0 (forget page filling)

-- The first caller leads, the second one joins its lock.
leads_first : ((acquire page new).1 ≡ 0) × ((acquire page new).2 ≡ true)
unfolding acquire new Assoc.get
leads_first = (refl, refl)

joins_second : ((acquire page filling).1 ≡ 0) × ((acquire page filling).2 ≡ false)
unfolding acquire new Assoc.get Assoc.put Text-discrete text_eq
joins_second = (refl, refl)

-- After the release the next caller makes a lock of its own.
leads_again : ((acquire page finished).1 ≡ 1) × ((acquire page finished).2 ≡ true)
unfolding acquire new forget close Assoc.get Assoc.put Assoc.delete Text-discrete text_eq
leads_again = (refl, refl)

abbrev two : Pc → Pc → ℕ → Pc
two p q zero = p
two p q (suc zero) = q
two p q (suc (suc j)) = asking 0

first_moves : (p p' q : Pc) (j : ℕ) → 0 ≢ j → two p' q j ≡ two p q j
first_moves p p' q zero ne = absurd (ne refl)
first_moves p p' q (suc zero) ne = refl
first_moves p p' q (suc (suc j)) ne = refl

second_moves : (p q q' : Pc) (j : ℕ) → 1 ≢ j → two p q' j ≡ two p q j
second_moves p q q' zero ne = refl
second_moves p q q' (suc zero) ne = absurd (ne refl)
second_moves p q q' (suc (suc j)) ne = refl

all_ask : (j : ℕ) → 0 ≢ j → two (leading page 0) (asking 0) j ≡ asking 0
all_ask zero ne = absurd (ne refl)
all_ask (suc zero) ne = refl
all_ask (suc (suc j)) ne = refl

contended : Run (acquire page filling).0 (two (leading page 0) (waiting 0 page 0))
unfolding acquire new Assoc.get Assoc.put Text-discrete text_eq
contended =
    step 1 (step 0 fresh (lead page refl) all_ask) (join page refl)
      (second_moves (leading page 0) (asking 0) (waiting 0 page 0))

single_flight_example :
    ((i j : ℕ) (key : Text) (m n : ℕ)
      → two (leading page 0) (waiting 0 page 0) i ≡ leading key m
      → two (leading page 0) (waiting 0 page 0) j ≡ leading key n
      → i ≡ j)
    × ((key : Text) (id : ℕ)
        → lock_of key (acquire page filling).0 ≡ some id
        → (i : ℕ) × (two (leading page 0) (waiting 0 page 0) i ≡ leading key id))
    × ((i id : ℕ)
        → two (leading page 0) (waiting 0 page 0) i ≡ closing id
        → (acquire page filling).0.closed id ≡ false)
    × ((i attempt : ℕ) (key : Text) (id : ℕ)
        → two (leading page 0) (waiting 0 page 0) i ≡ waiting attempt key id
        → Coming (acquire page filling).0 (two (leading page 0) (waiting 0 page 0)) id)
single_flight_example = single_flight contended

-- A follower that is woken and served from the cache.
joined : Move filling (asking 0) (acquire page filling).0 (waiting 0 page 0)
unfolding acquire new Assoc.get Assoc.put Text-discrete text_eq
joined = join page refl

woke : Move finished (waiting 0 page 0) finished (woken 0 page)
unfolding close
woke = wake refl

found : Move finished (woken 0 page) finished served
found = hit

followed : Moves 3 served
followed = more (more (more begin joined) woke) found

misses_end_example : 3 ≤ 7
misses_end_example = misses_end followed
