-- ===== src/Cache/Purge/Snapshot.antt =====
-- `Snapshot` and `Restore` of pkg/cache/purge/purge.go.
use parapet.Prelude.{ℕ, ◌≤◌, ◌≡◌, List, [], ◌∷◌, true, if◌then◌else◌, arith, ltb}
use parapet.Prelude.Assoc
use parapet.GoStrings.{Text}
use parapet.Cache.Purge.{
  PrefixRec, Table, epoch_at, records_at, raise, raise_prefixes, raise_tags, path_of, url_key,
  epoch_for,
}
use parapet.Cache.Purge.Scopes.{raise_prefixes_max, raise_tags_max, epoch_for-eq-max}

pub record Snapshot : Type 0 where
  pub host : List (Text × ℕ)
  pub url : List (Text × ℕ)
  pub prefixes : List (Text × List PrefixRec)
  pub tag : List (Text × ℕ)
  pub global : ℕ

unfoldable pub snapshot : Table → Snapshot
snapshot t = record {
  host = t.host;
  url = t.url;
  prefixes = t.prefixes;
  tag = t.tag;
  global = t.global;
}

-- The loops of `Restore` that look for the largest epoch.
unfoldable pub high_of : ℕ → List (Text × ℕ) → ℕ
high_of hw [] = hw
high_of hw ((_, v) ∷ m) = high_of (raise hw v) m

unfoldable pub high_of_recs : ℕ → List PrefixRec → ℕ
high_of_recs hw [] = hw
high_of_recs hw (r ∷ recs) = high_of_recs (raise hw r.epoch) recs

unfoldable pub high_of_prefixes : ℕ → List (Text × List PrefixRec) → ℕ
unfolding high_of_recs
high_of_prefixes hw [] = hw
high_of_prefixes hw ((_, recs) ∷ m) = high_of_prefixes (high_of_recs hw recs) m

unfoldable pub restore : Table → Snapshot → Table
unfolding high_of high_of_prefixes
restore t s =
    let hw =
      high_of (high_of_prefixes (high_of (high_of s.global s.host) s.url) s.prefixes) s.tag in
    record t {
      host = s.host;
      url = s.url;
      prefixes = s.prefixes;
      tag = s.tag;
      global = s.global;
      high_water = hw;
      active = if ltb 0 hw then true else t.active;
    }

high_of-grows : (hw : ℕ) (m : List (Text × ℕ)) → hw ≤ high_of hw m
unfolding high_of
high_of-grows hw [] = omega arith
high_of-grows hw ((k, v) ∷ m) = ground (arith, high_of-grows (raise hw v) m)

high_of-bounds : (hw : ℕ) (m : List (Text × ℕ)) (k : Text) → epoch_at k m ≤ high_of hw m
unfolding high_of Assoc.get
high_of-bounds hw [] k = omega arith
high_of-bounds hw ((j, v) ∷ m) k =
    ground (arith, high_of-bounds (raise hw v) m k, high_of-grows (raise hw v) m)

high_of_recs-grows : (hw : ℕ) (recs : List PrefixRec) → hw ≤ high_of_recs hw recs
unfolding high_of_recs
high_of_recs-grows hw [] = omega arith
high_of_recs-grows hw (r ∷ recs) = ground (arith, high_of_recs-grows (raise hw r.epoch) recs)

high_of_recs-bounds :
    (hw : ℕ) (path : Text) (recs : List PrefixRec)
    → raise_prefixes 0 path recs ≤ high_of_recs hw recs
unfolding high_of_recs raise_prefixes
high_of_recs-bounds hw path [] = omega arith
high_of_recs-bounds hw path (r ∷ recs) = ground (
  arith,
  high_of_recs-bounds (raise hw r.epoch) path recs,
  high_of_recs-grows (raise hw r.epoch) recs,
  raise_prefixes_max r.epoch path recs,
)

high_of_prefixes-grows : (hw : ℕ) (m : List (Text × List PrefixRec)) → hw ≤ high_of_prefixes hw m
unfolding high_of_prefixes
high_of_prefixes-grows hw [] = omega arith
high_of_prefixes-grows hw ((k, recs) ∷ m) =
    omega (arith, high_of_prefixes-grows (high_of_recs hw recs) m, high_of_recs-grows hw recs)

high_of_prefixes-bounds :
    (hw : ℕ) (path k : Text) (m : List (Text × List PrefixRec))
    → raise_prefixes 0 path (records_at k m) ≤ high_of_prefixes hw m
unfolding high_of_prefixes Assoc.get
high_of_prefixes-bounds hw path k [] = unfold raise_prefixes in omega arith
high_of_prefixes-bounds hw path k ((j, recs) ∷ m) = ground (
  arith,
  high_of_prefixes-bounds (high_of_recs hw recs) path k m,
  high_of_recs-bounds hw path recs,
  high_of_prefixes-grows (high_of_recs hw recs) m,
)

tag_epoch-bounds :
    (hw : ℕ) (m : List (Text × ℕ)) (tags : List Text) → raise_tags 0 m tags ≤ high_of hw m
unfolding raise_tags
tag_epoch-bounds hw m [] = omega arith
tag_epoch-bounds hw m (g ∷ tags) =
    ground (
      arith,
      tag_epoch-bounds hw m tags,
      high_of-bounds hw m g,
      raise_tags_max (epoch_at g m) m tags,
    )

abbrev highest : Table → ℕ
highest t = high_of (high_of_prefixes (high_of (high_of t.global t.host) t.url) t.prefixes) t.tag

epoch-le-highest :
    (digest : Text → Text) (t : Table) (host uri : Text) (tags : List Text)
    → t.active ≡ true
    → epoch_for digest t host uri tags ≤ highest t
epoch-le-highest digest t host uri tags a =
    let h0 : ℕ = high_of t.global t.host in
    let h1 : ℕ = high_of h0 t.url in
    let h2 : ℕ = high_of_prefixes h1 t.prefixes in
    omega (
      arith,
      epoch_for-eq-max digest t host uri tags a,
      high_of-grows t.global t.host,
      high_of-bounds t.global t.host host,
      high_of-grows h0 t.url,
      high_of-bounds h0 t.url (url_key digest host uri),
      high_of_prefixes-grows h1 t.prefixes,
      high_of_prefixes-bounds h1 (path_of uri) host t.prefixes,
      high_of-grows h2 t.tag,
      tag_epoch-bounds h2 t.tag tags,
    )

-- A restored table says of every entry what the table said that the snapshot was taken of, provided
-- that one has been stamped or restored.
pub epoch-restore-snapshot :
    (digest : Text → Text) (t fresh : Table) (host uri : Text) (tags : List Text)
    → t.active ≡ true
    → epoch_for digest (restore fresh (snapshot t)) host uri tags ≡ epoch_for digest t host uri tags
unfolding restore snapshot epoch_for
epoch-restore-snapshot digest t fresh host uri tags a =
    ground (arith, epoch-le-highest digest t host uri tags a)
