-- ===== src/Cache/Tags.antt =====
-- pkg/cache/tee.go: the surrogate keys of a response, and the headers that are stored with it. The keys
-- of a header are canonical.
use parapet.Prelude.{
  ◌⊎◌, ℕ, ◌≤◌, ◌<◌, ◌≡◌, List, [], ◌∷◌, ◌++◌, none, Bool, true, false, ◌||◌, ltb, leb,
  if◌then◌else◌, arith, length, length-append, Bool-cases, inl, inr,
}
use parapet.Prelude.Assoc
use parapet.GoStrings.{Text, Text-discrete, text_eq, text_eq_iff, codes, trim_space}
use parapet.Cache.Policy.{Header, values, tokens}
use parapet.Cache.Policy.Vary.{listed, listed-append, IsUnique, push-IsUnique}

abbrev pub max_cache_tags : ℕ
max_cache_tags = 64

abbrev pub max_cache_tag_len : ℕ
max_cache_tag_len = 256

unfoldable pub skips : List Text → Text → Bool
skips tags t = text_eq t [] || ltb max_cache_tag_len (length t) || listed t tags

-- The loop, with the tags so far, which are fewer than the cap. A field is skipped or appended; the
-- one that reaches the cap ends the loop.
unfoldable pub read_tags : List Text → List Text → List Text
unfolding skips
read_tags tags [] = tags
read_tags tags (raw ∷ raws) =
    let t = trim_space raw in
    let tags' = if skips tags t then tags else tags ++ t ∷ [] in
    let rest = read_tags tags' raws in if leb max_cache_tags (length tags') then tags' else rest

unfoldable pub parse_cache_tags : Header → List Text
unfolding read_tags
parse_cache_tags h = read_tags [] (tokens (values h (codes "Cache-Tag")))

abbrev pub hop_by_hop : List Text
hop_by_hop =
    codes "Connection"
    ∷ codes "Proxy-Connection"
    ∷ codes "Keep-Alive"
    ∷ codes "Te"
    ∷ codes "Trailer"
    ∷ codes "Transfer-Encoding"
    ∷ codes "Upgrade"
    ∷ codes "Proxy-Authenticate"
    ∷ codes "Proxy-Authorization"
    ∷ []

unfoldable pub sanitize_header : Header → Header
sanitize_header [] = []
sanitize_header ((k, vs) ∷ h) =
    let out = sanitize_header h in if listed k hop_by_hop then out else (k, vs) ∷ out

-- A field of the header, without its white space, is the tag.
unfoldable pub gives : Text → List Text → Bool
gives t [] = false
gives t (raw ∷ raws) = text_eq (trim_space raw) t || gives t raws

-- What holds of the tags of an entry.
pub record IsBounded (fields tags : List Text) : Type 0 where
  pub few : length tags ≤ max_cache_tags
  pub unique : IsUnique tags
  pub each :
      (t : Text)
      → listed t tags ≡ true
      → (gives t fields ≡ true) × (length t ≤ max_cache_tag_len) × (text_eq t [] ≡ false)
  pub all :
      length tags < max_cache_tags
      → (t : Text) → gives t fields ≡ true
      → length t ≤ max_cache_tag_len
      → text_eq t [] ≡ false
      → listed t tags ≡ true

-- What holds in the loop: the tags so far come from the fields, and what is not among them is still
-- to come.
record IsPartial (fields tags raws : List Text) : Type 0 where
  unique : IsUnique tags
  each :
      (t : Text)
      → listed t tags ≡ true
      → (gives t fields ≡ true) × (length t ≤ max_cache_tag_len) × (text_eq t [] ≡ false)
  from : (t : Text) → gives t raws ≡ true → gives t fields ≡ true
  all :
      (t : Text)
      → gives t fields ≡ true
      → length t ≤ max_cache_tag_len
      → text_eq t [] ≡ false
      → (listed t tags ≡ true) ⊎ (gives t raws ≡ true)

module _ (fields tags raws : List Text) (raw : Text) (p : IsPartial fields tags (raw ∷ raws)) where
  skip-IsPartial : skips tags (trim_space raw) ≡ true → IsPartial fields tags raws
  unfolding skips gives
  skip-IsPartial e = record {
    unique = p.unique;
    each = p.each;
    from = λ t g. ground (arith, p.from t);
    all = λ t g n ne. ground (arith, p.all t g n ne, text_eq_iff (trim_space raw) t);
  }

  keep-IsPartial :
      skips tags (trim_space raw) ≡ false → IsPartial fields (tags ++ trim_space raw ∷ []) raws
  unfolding skips gives listed
  keep-IsPartial e =
      let tag = trim_space raw in
      record {
        unique = push-IsUnique tag tags p.unique (ground arith);
        each = λ t l. (
          ground (arith, p.each t, p.from t, listed-append t tags (tag ∷ [])),
          ground (arith, p.each t, text_eq_iff tag t, listed-append t tags (tag ∷ [])),
          ground (arith, p.each t, text_eq_iff tag t, listed-append t tags (tag ∷ [])),
        );
        from = λ t g. ground (arith, p.from t);
        all = λ t g n ne. ground (arith, p.all t g n ne, listed-append t tags (tag ∷ []));
      }

read_tags_lem :
    (raws tags fields : List Text)
    → length tags < max_cache_tags
    → IsPartial fields tags raws
    → IsBounded fields (read_tags tags raws)
unfolding read_tags gives
read_tags_lem [] tags fields few p = record {
  few = omega arith;
  unique = p.unique;
  each = p.each;
  all = λ l t g n e. ground (arith, p.all t g n e);
}
read_tags_lem (raw ∷ raws) tags fields few p =
    let tag = trim_space raw in
    let more = length-append tags (tag ∷ []) in
    elim (Bool-cases (skips tags tag)) [
      | inl skip ↦
          let below : leb max_cache_tags (length tags) ≡ false = ground arith in
          rw (skip, below)
            (read_tags_lem raws tags fields few (skip-IsPartial fields tags raws raw p skip))
      | inr keep ↦
          let q = keep-IsPartial fields tags raws raw p keep in
          elim (Bool-cases (leb max_cache_tags (length (tags ++ tag ∷ [])))) [
            | inl full ↦
                rw (keep, full)
                  (record {
                    few = omega (arith, more);
                    unique = q.unique;
                    each = q.each;
                    all = λ l. absurd (ground arith);
                  })
            | inr below ↦
                rw (keep, below) (read_tags_lem raws (tags ++ tag ∷ []) fields (ground arith) q)
          ]
    ]

-- An entry has at most 64 tags, each once, of 1 to 256 bytes, and each from a field of the Cache-Tag
-- header; if there are fewer, every such field is a tag.
pub parse_cache_tags_lem :
    (h : Header) → IsBounded (tokens (values h (codes "Cache-Tag"))) (parse_cache_tags h)
unfolding parse_cache_tags listed
parse_cache_tags_lem h =
    let fields = tokens (values h (codes "Cache-Tag")) in
    read_tags_lem fields [] fields (omega arith) (record {
      unique = tt;
      each = λ t e. absurd (ground arith);
      from = λ t g. g;
      all = λ t g n e. inr g;
    })

-- A stored response has none of the hop-by-hop headers, and all the others as they were.
pub get-sanitize_header :
    (h : Header) (k : Text)
    → Assoc.get Text-discrete k (sanitize_header h)
      ≡ (if listed k hop_by_hop then none else Assoc.get Text-discrete k h)
unfolding sanitize_header Assoc.get
get-sanitize_header [] k = ground arith
get-sanitize_header ((j, vs) ∷ h) k = ground (arith, get-sanitize_header h k)
