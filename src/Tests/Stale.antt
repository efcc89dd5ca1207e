-- ===== src/Tests/Stale.antt =====
-- pkg/cache/stale.go at small inputs: an entry that is fresh until 200.
use parapet.Prelude.{ℕ, ◌≤◌, ◌≡◌, refl, List, [], ◌∷◌, Option, some, if◌then◌else◌, arith}
use parapet.GoStrings.{codes}
use parapet.Cache.Storage.{Meta}
use parapet.Cache.Stale.{
  classify, stale_revalidate, Client, new_client, Event, set_header, write_header, write,
  direct_all, fill_with_stale,
}
use parapet.Cache.Stale.Windows.{age_rank, classify_ages}
use parapet.Cache.Stale.Gate.{is_error, first_status, fill_with_stale_lem, informed_error_is_200}

abbrev entry : Meta
entry = record {
  header = [];
  primary_hex = [];
  host = [];
  uri = [];
  vary = [];
  tags = [];
  created = 100;
  fresh_until = 200;
  stale_while_revalidate = 50;
  stale_if_error = 90;
  size = 2;
  status = 200;
}

abbrev hook : Option (Meta → ℕ)
hook = some (λ m. 99)

revalidates : classify hook entry 230 ≡ stale_revalidate
unfolding classify
revalidates = refl

classify_ages_example : age_rank (classify hook entry 230) ≤ age_rank (classify hook entry 260)
classify_ages_example = classify_ages hook entry 230 260 (omega arith)

abbrev stored : Client → Client
stored c = record c { status = some 200; body = 1 ∷ [] }

abbrev failing : List Event
failing = set_header (codes "X") (codes "y" ∷ []) ∷ write_header 503 ∷ write (5 ∷ []) ∷ []

fill_with_stale_lem_example :
    fill_with_stale stored (record new_client { headers = [] }) failing ≡ (
      if is_error (first_status failing)
      then stored new_client
      else direct_all (record new_client { headers = [] }) failing)
fill_with_stale_lem_example = fill_with_stale_lem stored failing [] refl

informed_error_is_200_example :
    fill_with_stale stored new_client (write_header 103 ∷ write_header 503 ∷ write (5 ∷ []) ∷ [])
    ≡ record new_client { informed = 103 ∷ []; status = some 200; body = 5 ∷ [] }
informed_error_is_200_example = informed_error_is_200 stored 103 503 (5 ∷ []) refl
