-- ===== src/Cache/Purge.antt =====
-- pkg/cache/purge/purge.go: what has been purged, and up to when. Epochs are nanoseconds since 1970;
-- the clock's reading is an argument. `digest` stands for SHA-256 in hexadecimal (`urlKey`).
pub mod Scopes
pub mod Cap
pub mod Prefixes
pub mod Ops
pub mod History
pub mod Snapshot
use parapet.Prelude.{
  ℕ, ◌+◌, ◌%◌, ◌^◌, List, [], ◌∷◌, ◌++◌, Option, none, some, Bool, true, false, ◌&&◌, ◌||◌, ltb,
  ◌==◌, if◌then◌else◌, length,
}
use parapet.Prelude.Assoc
use parapet.GoStrings.{Text, Text-discrete, text_eq, trim_right, has_prefix, before_byte}
use parapet.GoStrings.HostPort.{norm_host}

pub record PrefixRec : Type 0 where
  pub prefix : Text
  pub epoch : ℕ

pub record Table : Type 0 where
  pub host : List (Text × ℕ)
  pub url : List (Text × ℕ)
  pub prefixes : List (Text × List PrefixRec)
  pub tag : List (Text × ℕ)
  pub global : ℕ
  pub high_water : ℕ
  pub folds : ℕ
  pub max_recs : ℕ
  pub active : Bool

-- `New`, with `WithMaxRecords(n)`; 0 keeps the default.
unfoldable pub new : ℕ → Table
new n = record {
  host = [];
  url = [];
  prefixes = [];
  tag = [];
  global = 0;
  high_water = 0;
  folds = 0;
  max_recs = if n == 0 then 2 ^ 16 else n;
  active = false;
}

-- A read of a map: 0 for a key that is absent.
abbrev pub epoch_at : Text → List (Text × ℕ) → ℕ
epoch_at k m = elim (Assoc.get Text-discrete k m) [ none ↦ 0 | some e ↦ e ]

abbrev pub records_at : Text → List (Text × List PrefixRec) → List PrefixRec
records_at k m = elim (Assoc.get Text-discrete k m) [ none ↦ [] | some recs ↦ recs ]

-- `if v > e { e = v }`.
abbrev pub raise : ℕ → ℕ → ℕ
raise e v = if ltb e v then v else e

-- The epoch of a stamp: the clock's reading, or the largest epoch so far.
abbrev pub stamped : Table → ℕ → ℕ
stamped t now = if ltb now t.high_water then t.high_water else now

abbrev pub stamp : Table → ℕ → Table
stamp t now = record t { high_water = stamped t now; active = true }

unfoldable pub prefix_count : List (Text × List PrefixRec) → ℕ
prefix_count [] = 0
prefix_count ((_, recs) ∷ m) = length recs + prefix_count m

-- Each map in turn is emptied if it is over the cap; one that was folds into the global epoch.
unfoldable pub enforce_cap : Table → Table
unfolding prefix_count
enforce_cap t =
    let over_url = ltb t.max_recs (length t.url) in
    let over_host = ltb t.max_recs (length t.host) in
    let over_prefix = ltb t.max_recs (prefix_count t.prefixes) in
    let over_tag = ltb t.max_recs (length t.tag) in
    let folded = over_url || over_host || over_prefix || over_tag in
    record t {
      url = if over_url then [] else t.url;
      host = if over_host then [] else t.host;
      prefixes = if over_prefix then [] else t.prefixes;
      tag = if over_tag then [] else t.tag;
      global = if folded then t.high_water else t.global;
      folds = if folded then (t.folds + 1) % 2 ^ 64 else t.folds;
    }

-- `applyPrefixLocked`: the record of the prefix is raised in place, or appended.
unfoldable pub apply_prefix : List PrefixRec → Text → ℕ → List PrefixRec
apply_prefix [] prefix epoch = record { prefix = prefix; epoch = epoch } ∷ []
apply_prefix (r ∷ recs) prefix epoch =
    if text_eq r.prefix prefix
    then record r { epoch = raise r.epoch epoch } ∷ recs
    else r ∷ apply_prefix recs prefix epoch

-- `normalizePrefix`, which trims every trailing slash.
unfoldable pub normalize_prefix : Text → Text
normalize_prefix = trim_right (λ c. c == b'/')

unfoldable pub path_of : Text → Text
path_of = before_byte b'?'

unfoldable pub match_prefix : Text → Text → Bool
match_prefix path pre = text_eq pre [] || text_eq path pre || has_prefix path (pre ++ b'/' ∷ [])

unfoldable pub flush_all : Table → ℕ → Table
flush_all t now = record (stamp t now) {
  global = stamped t now;
  host = [];
  url = [];
  prefixes = [];
  tag = [];
}

unfoldable pub purge_host : Table → ℕ → Text → Table
unfolding enforce_cap
purge_host t now host =
    let h = norm_host host in
    if text_eq h []
    then t
    else enforce_cap
        (record (stamp t now) { host = Assoc.put Text-discrete h (stamped t now) t.host })

unfoldable pub purge_tag : Table → ℕ → Text → Table
unfolding enforce_cap
purge_tag t now tag =
    if text_eq tag []
    then t
    else enforce_cap
        (record (stamp t now) { tag = Assoc.put Text-discrete tag (stamped t now) t.tag })

unfoldable pub purge_prefix : Table → ℕ → Text → Text → Table
unfolding enforce_cap apply_prefix normalize_prefix
purge_prefix t now host prefix =
    let h = norm_host host in
    if text_eq h []
    then t
    else (let recs =
          apply_prefix (records_at h t.prefixes) (normalize_prefix prefix) (stamped t now) in
        enforce_cap (record (stamp t now) { prefixes = Assoc.put Text-discrete h recs t.prefixes }))

-- The loops of `epochFor` over the prefix records of a host and over the tags of an entry.
unfoldable pub raise_prefixes : ℕ → Text → List PrefixRec → ℕ
unfolding match_prefix
raise_prefixes e path [] = e
raise_prefixes e path (r ∷ recs) =
    raise_prefixes (if ltb e r.epoch && match_prefix path r.prefix then r.epoch else e) path recs

unfoldable pub raise_tags : ℕ → List (Text × ℕ) → List Text → ℕ
raise_tags e m [] = e
raise_tags e m (g ∷ tags) = raise_tags (raise e (epoch_at g m)) m tags

module _ (digest : Text → Text) where
  unfoldable pub url_key : Text → Text → Text
  url_key host uri = digest (host ++ b'\n' ∷ uri)

  unfoldable pub purge_url : Table → ℕ → Text → Text → Table
  unfolding enforce_cap url_key
  purge_url t now host uri =
      let h = norm_host host in
      if text_eq h []
      then t
      else enforce_cap (record (stamp t now) {
        url = Assoc.put Text-discrete (url_key h uri) (stamped t now) t.url;
      })

  unfoldable pub epoch_for : Table → Text → Text → List Text → ℕ
  unfolding url_key path_of raise_prefixes raise_tags
  epoch_for t host uri tags =
      let scoped =
        raise (raise t.global (epoch_at host t.host)) (epoch_at (url_key host uri) t.url) in
      let prefixed = raise_prefixes scoped (path_of uri) (records_at host t.prefixes) in
      if t.active then raise_tags prefixed t.tag tags else 0
