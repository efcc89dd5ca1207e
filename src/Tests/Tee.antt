-- ===== src/Tests/Tee.antt =====
-- pkg/cache/tee.go at small inputs: a response of three bytes in two writes.
use parapet.Prelude.{ℕ, ◌≡◌, ◌≤◌, ◌≢◌, refl, List, [], ◌∷◌, none, some, true, false, take}
use parapet.GoStrings.{codes}
use parapet.Cache.Tee.{Config, Head, TeeWriter, new, Action, body, act_all, finish, serve_leader}
use parapet.Cache.Tee.Complete.{bytes_of, finish-whole, client-whole}

abbrev cfg : Config
cfg = record { max_file_size = 10; cache_chunked = false; decouple_fill = true }

abbrev three_bytes : Head
three_bytes = record {
  cacheable = true;
  writer_ok = true;
  content_length = some 3;
  waiting = false;
}

abbrev writes : List Action
writes = body (codes "ab") true ∷ body (codes "c") true ∷ []

abbrev filled : TeeWriter
filled = act_all cfg three_bytes writes new

committed : (finish cfg false true filled).1 ≡ some (codes "abc")
unfolding act_all finish new
committed = refl

truncated :
    (finish cfg false true (act_all cfg three_bytes (body (codes "ab") true ∷ []) new)).1 ≡ none
unfolding act_all finish new
truncated = refl

-- A follower waits, so the client is served after the fill.
served_later :
    (serve_leader false (act_all cfg (record three_bytes { waiting = true }) writes new)).client
    ≡ codes "abc"
unfolding act_all serve_leader new
served_later = refl

finish-whole_example :
    (codes "abc" ≡ bytes_of writes)
    × (3 ≤ 10)
    × ((n : ℕ) → three_bytes.content_length ≡ some n → false ≡ false → 3 ≡ n)
finish-whole_example =
    finish-whole cfg three_bytes false true (body (codes "ab") true) (body (codes "c") true ∷ [])
      (codes "abc") committed

client-whole_example :
    (filled.deferred_client ≡ false → filled.client ≡ bytes_of writes)
    × (filled.deferred_client ≡ true
        → filled.status ≢ 204
        → (serve_leader false filled).client ≡ take 10 (bytes_of writes))
client-whole_example =
    client-whole cfg three_bytes (body (codes "ab") true) (body (codes "c") true ∷ [])
