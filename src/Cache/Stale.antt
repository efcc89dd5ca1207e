-- ===== src/Cache/Stale.antt =====
-- pkg/cache/stale.go: how a stored entry may be served, and the gate that puts a stored response in
-- place of an origin's error.
pub mod Windows
pub mod Gate
use parapet.Prelude.{
  ℕ, ◌+◌, List, [], ◌∷◌, ◌++◌, Option, none, some, Bool, true, false, not, ◌&&◌, ltb, leb, ◌==◌,
  if◌then◌else◌,
}
use parapet.Prelude.Assoc
use parapet.GoStrings.{Text, Text-discrete}
use parapet.Cache.Storage.{Meta}
use parapet.Cache.Policy.{Header}

pub data FreshState : Type 0 where
  expired : FreshState
  fresh : FreshState
  stale_revalidate : FreshState
  stale_if_error : FreshState

-- The `switch`, without the hook.
unfoldable pub by_time : Meta → ℕ → FreshState
by_time m now =
    if leb now m.fresh_until
    then fresh
    else if ltb 0 m.stale_while_revalidate && ltb now (m.fresh_until + m.stale_while_revalidate)
    then stale_revalidate
    else if ltb 0 m.stale_if_error && ltb now (m.fresh_until + m.stale_if_error)
    then stale_if_error
    else expired

unfoldable pub invalidated : Option (Meta → ℕ) → Meta → Bool
invalidated none m = false
invalidated (some invalidated_after) m = leb m.created (invalidated_after m)

unfoldable pub classify : Option (Meta → ℕ) → Meta → ℕ → FreshState
unfolding by_time invalidated
classify hook m now = elim (by_time m now) [
  | expired ↦ expired
  | fresh ↦ if invalidated hook m then expired else fresh
  | stale_revalidate ↦ if invalidated hook m then expired else stale_revalidate
  | stale_if_error ↦ if invalidated hook m then expired else stale_if_error
]

unfoldable pub serveable_until : Meta → ℕ
serveable_until m =
    m.fresh_until
    + (if ltb m.stale_while_revalidate m.stale_if_error
        then m.stale_if_error
        else m.stale_while_revalidate)

-- A response writer as `net/http` documents it: the first final status stays, and a body or a flush
-- without one makes it 200. A status below 200 other than 101 only informs.
pub record Client : Type 0 where
  pub headers : Header
  pub informed : List ℕ
  pub status : Option ℕ
  pub body : List ℕ

abbrev pub new_client : Client
new_client = record { headers = []; informed = []; status = none; body = [] }

abbrev pub informs : ℕ → Bool
informs code = leb 100 code && leb code 199 && not (code == 101)

unfoldable pub send_status : Client → ℕ → Client
send_status c code = elim c.status [
  | some s ↦ c
  | none ↦
      if informs code
      then record c { informed = c.informed ++ code ∷ [] }
      else record c { status = some code }
]

abbrev pub or_200 : Option ℕ → Option ℕ
or_200 none = some 200
or_200 (some s) = some s

unfoldable pub send_body : Client → List ℕ → Client
send_body c p = record c { status = or_200 c.status; body = c.body ++ p }

-- What the origin's handler does with the writer.
pub data Event : Type 0 where
  set_header : Text → List Text → Event
  write_header : ℕ → Event
  write : List ℕ → Event
  flush : Event

-- Without a gate.
unfoldable pub direct : Client → Event → Client
unfolding send_status send_body
direct c (set_header k vs) = record c { headers = Assoc.put Text-discrete k vs c.headers }
direct c (write_header code) = send_status c code
direct c (write p) = send_body c p
direct c flush = record c { status = or_200 c.status }

unfoldable pub direct_all : Client → List Event → Client
unfolding direct
direct_all c [] = c
direct_all c (e ∷ es) = direct_all (direct c e) es

-- `staleGate`.
pub record StaleGate : Type 0 where
  pub inner : Client
  pub decided : Bool
  pub fell_back : Bool

unfoldable pub gate_header : StaleGate → ℕ → StaleGate
unfolding send_status
gate_header g code =
    if g.decided
    then g
    else if leb 500 code
    then record g { decided = true; fell_back = true }
    else record g { decided = true; inner = send_status g.inner code }

unfoldable pub gate_write : StaleGate → List ℕ → StaleGate
unfolding gate_header send_body
gate_write g p =
    let g' = if g.decided then g else gate_header g 200 in
    if g'.fell_back then g' else record g' { inner = send_body g'.inner p }

unfoldable pub gate : StaleGate → Event → StaleGate
unfolding gate_header gate_write direct
gate g (set_header k vs) = record g { inner = direct g.inner (set_header k vs) }
gate g (write_header code) = gate_header g code
gate g (write p) = gate_write g p
gate g flush = if g.fell_back then g else record g { inner = direct g.inner flush }

unfoldable pub gate_all : StaleGate → List Event → StaleGate
unfolding gate
gate_all g [] = g
gate_all g (e ∷ es) = gate_all (gate g e) es

-- `finalize`, where `write_stored` writes the stored response to the writer that it is given.
unfoldable pub finalize : (Client → Client) → StaleGate → Client
finalize write_stored g =
    if g.fell_back then write_stored (record g.inner { headers = [] }) else g.inner

-- `fillWithStale`: the gate around the origin's handler.
unfoldable pub fill_with_stale : (Client → Client) → Client → List Event → Client
unfolding gate_all finalize
fill_with_stale write_stored c es =
    finalize write_stored (gate_all (record { inner = c; decided = false; fell_back = false }) es)
