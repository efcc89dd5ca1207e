-- ===== src/Cache/Stale/Gate.antt =====
-- What the client gets through the gate.
use parapet.Prelude.{
  ap, ℕ, ◌≡◌, refl, List, [], ◌∷◌, Option, none, some, Bool, true, false, leb, if◌then◌else◌, arith,
}
use parapet.Prelude.Assoc
use parapet.GoStrings.{Text-discrete}
use parapet.Cache.Policy.{Header}
use parapet.Cache.Stale.{
  Client, new_client, informs, send_status, send_body, Event, set_header, write_header, write,
  flush, direct, direct_all, gate_header, gate_write, gate, gate_all, finalize, fill_with_stale,
}

-- The status that the first call gives the response.
abbrev pub first_status : List Event → Option ℕ
first_status [] = none
first_status (set_header k vs ∷ es) = first_status es
first_status (write_header code ∷ es) = some code
first_status (write p ∷ es) = some 200
first_status (flush ∷ es) = some 200

-- The first call that concerns the status gives a final one, and is no flush.
abbrev pub IsPlain : List Event → Type 0
IsPlain [] = Unit {0}
IsPlain (set_header k vs ∷ es) = IsPlain es
IsPlain (write_header code ∷ es) = informs code ≡ false
IsPlain (write p ∷ es) = Unit {0}
IsPlain (flush ∷ es) = ◌≡◌ {A = Bool} true false

abbrev pub is_error : Option ℕ → Bool
is_error none = false
is_error (some code) = leb 500 code

settled : (c : Client) (s code : ℕ) → c.status ≡ some s → send_status c code ≡ c
unfolding send_status
settled c s code h = ground arith

-- Once the gate is passed, it does nothing; once it fell back, nothing passes.
gate_all_passed :
    (es : List Event) (c : Client) (s : ℕ)
    → c.status ≡ some s
    → gate_all (record { inner = c; decided = true; fell_back = false }) es
      ≡ record { inner = direct_all c es; decided = true; fell_back = false }
unfolding gate_all direct_all gate direct gate_header gate_write send_body
gate_all_passed [] c s h = refl
gate_all_passed (set_header k vs ∷ es) c s h = gate_all_passed es (direct c (set_header k vs)) s h
gate_all_passed (write_header code ∷ es) c s h = rw (settled c s code h) (gate_all_passed es c s h)
gate_all_passed (write p ∷ es) c s h = gate_all_passed es (direct c (write p)) s (ground arith)
gate_all_passed (flush ∷ es) c s h = gate_all_passed es (direct c flush) s (ground arith)

-- What reaches the client past a gate that fell back: the stored response alone.
gate_all_fell_back :
    (write_stored : Client → Client) (es : List Event) (c : Client)
    → finalize write_stored (gate_all (record { inner = c; decided = true; fell_back = true }) es)
      ≡ write_stored (record c { headers = [] })
unfolding gate_all gate direct gate_header gate_write finalize
gate_all_fell_back write_stored [] c = refl
gate_all_fell_back write_stored (set_header k vs ∷ es) c =
    gate_all_fell_back write_stored es (direct c (set_header k vs))
gate_all_fell_back write_stored (write_header code ∷ es) c = gate_all_fell_back write_stored es c
gate_all_fell_back write_stored (write p ∷ es) c = gate_all_fell_back write_stored es c
gate_all_fell_back write_stored (flush ∷ es) c = gate_all_fell_back write_stored es c

module _ (write_stored : Client → Client) where
  -- If the origin's response is no server error, the client gets it as it would without the gate.
  -- If it is one, the client gets the stored response on an untouched writer: no header, status or
  -- byte of the origin's.
  pub fill_with_stale_lem :
      (es : List Event) (hs : Header)
      → IsPlain es
      → fill_with_stale write_stored (record new_client { headers = hs }) es ≡ (
          if is_error (first_status es)
          then write_stored new_client
          else direct_all (record new_client { headers = hs }) es)
  unfolding fill_with_stale gate_all direct_all gate direct gate_header gate_write finalize
      send_status send_body
  fill_with_stale_lem [] hs plain = refl
  fill_with_stale_lem (set_header k vs ∷ es) hs plain =
      fill_with_stale_lem es (Assoc.put Text-discrete k vs hs) plain
  fill_with_stale_lem (write_header code ∷ es) hs plain =
      let c = record new_client { headers = hs } in
      ground (
        arith,
        gate_all_fell_back write_stored es c,
        gate_all_passed es (record c { status = some code }) code refl,
      )
  fill_with_stale_lem (write p ∷ es) hs plain =
      let c = record new_client { headers = hs } in
      ap (finalize write_stored) (gate_all_passed es (direct c (write p)) 200 refl)
  fill_with_stale_lem (flush ∷ es) hs plain = ground arith

  -- A status that only informs decides the gate as well: the error that follows it is neither
  -- replaced by the stored response nor sent, and its body goes out with the status 200.
  pub informed_error_is_200 :
      (hint code : ℕ) (p : List ℕ)
      → informs hint ≡ true
      → fill_with_stale write_stored new_client
          (write_header hint ∷ write_header code ∷ write p ∷ [])
        ≡ record new_client { informed = hint ∷ []; status = some 200; body = p }
  unfolding fill_with_stale gate_all gate gate_header gate_write finalize send_status send_body
  informed_error_is_200 hint code p h = ground arith
