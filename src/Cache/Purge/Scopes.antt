-- ===== src/Cache/Purge/Scopes.antt =====
-- `epochFor` as a maximum over the scopes, and the order on tables that it respects.
use Prim.Native.Nat.{max}
use parapet.Prelude.{ℕ, ◌≤◌, ◌≡◌, List, [], ◌∷◌, true, false, arith, Bool-cases, inl, inr}
use parapet.GoStrings.{Text}
use parapet.Cache.Purge.{
  PrefixRec, Table, epoch_at, records_at, raise, raise_prefixes, raise_tags, path_of, url_key,
  epoch_for,
}

pub raise_prefixes_max :
    (e : ℕ) (path : Text) (recs : List PrefixRec)
    → raise_prefixes e path recs ≡ max e (raise_prefixes 0 path recs)
unfolding raise_prefixes
raise_prefixes_max e path [] = omega arith
raise_prefixes_max e path (r ∷ recs) =
    ground (arith, raise_prefixes_max e path recs, raise_prefixes_max r.epoch path recs)

pub raise_tags_max :
    (e : ℕ) (m : List (Text × ℕ)) (tags : List Text)
    → raise_tags e m tags ≡ max e (raise_tags 0 m tags)
unfolding raise_tags
raise_tags_max e m [] = omega arith
raise_tags_max e m (g ∷ tags) =
    ground (arith, raise_tags_max e m tags, raise_tags_max (epoch_at g m) m tags)

-- What the prefix records of a host say of a path, and what the tags of an entry say.
abbrev pub prefix_epoch : Table → Text → Text → ℕ
prefix_epoch t host path = raise_prefixes 0 path (records_at host t.prefixes)

abbrev pub tag_epoch : Table → List Text → ℕ
tag_epoch t tags = raise_tags 0 t.tag tags

-- On a table that was stamped or restored, the epoch of an entry is the largest among those of
-- everything, its host, its URL, the prefixes of its path and its tags.
pub epoch_for-eq-max :
    (digest : Text → Text) (t : Table) (host uri : Text) (tags : List Text)
    → t.active ≡ true
    → epoch_for digest t host uri tags
      ≡ max
          (max
            (max (max t.global (epoch_at host t.host)) (epoch_at (url_key digest host uri) t.url))
            (prefix_epoch t host (path_of uri)))
          (tag_epoch t tags)
unfolding epoch_for
epoch_for-eq-max digest t host uri tags a =
    let scoped =
      raise (raise t.global (epoch_at host t.host)) (epoch_at (url_key digest host uri) t.url) in
    let recs = records_at host t.prefixes in
    ground (
      arith,
      raise_prefixes_max scoped (path_of uri) recs,
      raise_tags_max (raise_prefixes scoped (path_of uri) recs) t.tag tags,
    )

-- Every scope of the first table is covered by the same scope of the second, or by its global epoch.
pub record Dominated (t t' : Table) : Type 0 where
  pub globals : t.global ≤ t'.global
  pub hosts : (h : Text) → epoch_at h t.host ≤ max (epoch_at h t'.host) t'.global
  pub urls : (k : Text) → epoch_at k t.url ≤ max (epoch_at k t'.url) t'.global
  pub paths : (h path : Text) → prefix_epoch t h path ≤ max (prefix_epoch t' h path) t'.global
  pub tags : (g : Text) → epoch_at g t.tag ≤ max (epoch_at g t'.tag) t'.global
  pub awake : t.active ≡ true → t'.active ≡ true

tag_epoch-le :
    (t t' : Table) (tags : List Text)
    → Dominated t t'
    → tag_epoch t tags ≤ max (tag_epoch t' tags) t'.global
unfolding raise_tags
tag_epoch-le t t' [] d = omega arith
tag_epoch-le t t' (g ∷ tags) d = ground (
  arith,
  d.tags g,
  tag_epoch-le t t' tags d,
  raise_tags_max (epoch_at g t.tag) t.tag tags,
  raise_tags_max (epoch_at g t'.tag) t'.tag tags,
)

epoch_for_asleep :
    (digest : Text → Text) (t : Table) (host uri : Text) (tags : List Text)
    → t.active ≡ false
    → epoch_for digest t host uri tags ≡ 0
unfolding epoch_for
epoch_for_asleep digest t host uri tags a = ground arith

-- A table that covers another one invalidates at least as much.
pub epoch_for-le :
    (digest : Text → Text) (t t' : Table) (host uri : Text) (tags : List Text)
    → Dominated t t'
    → epoch_for digest t host uri tags ≤ epoch_for digest t' host uri tags
epoch_for-le digest t t' host uri tags d = elim (Bool-cases t.active) [
  | inl a ↦ omega (
    arith,
    epoch_for-eq-max digest t host uri tags a,
    epoch_for-eq-max digest t' host uri tags (d.awake a),
    d.globals,
    d.hosts host,
    d.urls (url_key digest host uri),
    d.paths host (path_of uri),
    tag_epoch-le t t' tags d,
  )
  | inr a ↦ omega (arith, epoch_for_asleep digest t host uri tags a)
]

pub Dominated-refl : (t : Table) → Dominated t t
Dominated-refl t = record {
  globals = omega arith;
  hosts = λ h. omega arith;
  urls = λ k. omega arith;
  paths = λ h path. omega arith;
  tags = λ g. omega arith;
  awake = λ a. a;
}

pub Dominated-trans : {t u v : Table} → Dominated t u → Dominated u v → Dominated t v
Dominated-trans d e = record {
  globals = omega arith;
  hosts = λ h. omega (arith, d.hosts h, e.hosts h);
  urls = λ k. omega (arith, d.urls k, e.urls k);
  paths = λ h path. omega (arith, d.paths h path, e.paths h path);
  tags = λ g. omega (arith, d.tags g, e.tags g);
  awake = λ a. e.awake (d.awake a);
}
