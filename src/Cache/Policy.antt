-- ===== src/Cache/Policy.antt =====
-- pkg/cache/policy.go: what may be stored, and for how long. A header maps the canonical names to
-- their values. Durations are int64 words, and times are nanoseconds from a start that lies before
-- every date. `http.ParseTime` is the parameter `parse_time`.
pub mod Directives
pub mod Vary
pub mod Freshness
pub mod Decide
pub mod Ladder
use parapet.Prelude.{
  ℕ, ◌+◌, List, [], ◌∷◌, ◌++◌, Option, none, some, Bool, true, false, not, ◌&&◌, ◌||◌, ◌==◌,
  if◌then◌else◌, leb,
}
use parapet.Prelude.Assoc
use parapet.GoInt64.{less, sub, mul, time_sub, second}
use parapet.GoStrings.{
  Text, Text-discrete, text_eq, codes, to_lower, trim_space, trim_left, trim_right, has_prefix,
}
use parapet.GoStrings.Split.{split, cut}
use parapet.GoStrings.ParseInt.{parse_int}

abbrev pub Header : Type 0
Header = List (Text × List Text)

-- Ten years.
abbrev pub max_ttl : ℕ
max_ttl = 315360000000000000

-- `Header.Values` and `Header.Get`, for a canonical name.
unfoldable pub values : Header → Text → List Text
values h name = elim (Assoc.get Text-discrete name h) [ none ↦ [] | some vs ↦ vs ]

abbrev pub first_of : List Text → Text
first_of [] = []
first_of (v ∷ vs) = v

unfoldable pub get : Header → Text → Text
unfolding values
get h name = first_of (values h name)

-- The fields of all the values, split at the commas.
unfoldable pub tokens : List Text → List Text
tokens [] = []
tokens (v ∷ vs) = split b',' v ++ tokens vs

unfoldable pub cacheable_method : Text → Bool
cacheable_method m = text_eq m (codes "GET") || text_eq m (codes "HEAD")

unfoldable pub any_upgrade : List Text → Bool
any_upgrade [] = false
any_upgrade (tok ∷ toks) = text_eq (to_lower (trim_space tok)) (codes "upgrade") || any_upgrade toks

unfoldable pub is_upgrade : Header → Bool
unfolding get tokens any_upgrade
is_upgrade h =
    not (text_eq (get h (codes "Upgrade")) [])
    || any_upgrade (tokens (values h (codes "Connection")))

unfoldable pub cacheable_status : ℕ → Bool
cacheable_status code =
    code == 200
    || code == 203
    || code == 204
    || code == 300
    || code == 301
    || code == 308
    || code == 404
    || code == 410

pub record CacheControl : Type 0 where
  pub max_age : ℕ
  pub s_max_age : ℕ
  pub stale_while_revalidate : ℕ
  pub stale_if_error : ℕ
  pub is_private : Bool
  pub no_store : Bool
  pub no_cache : Bool
  pub is_public : Bool
  pub must_revalidate : Bool
  pub proxy_revalidate : Bool
  pub has_max : Bool
  pub has_s_max : Bool

abbrev pub no_directives : CacheControl
no_directives = record {
  max_age = 0;
  s_max_age = 0;
  stale_while_revalidate = 0;
  stale_if_error = 0;
  is_private = false;
  no_store = false;
  no_cache = false;
  is_public = false;
  must_revalidate = false;
  proxy_revalidate = false;
  has_max = false;
  has_s_max = false;
}

abbrev pub set_max_age : CacheControl → Option ℕ → CacheControl
set_max_age cc none = cc
set_max_age cc (some n) = record cc { max_age = n; has_max = true }

abbrev pub set_s_max_age : CacheControl → Option ℕ → CacheControl
set_s_max_age cc none = cc
set_s_max_age cc (some n) = record cc { s_max_age = n; has_s_max = true }

abbrev pub set_stale_while_revalidate : CacheControl → Option ℕ → CacheControl
set_stale_while_revalidate cc none = cc
set_stale_while_revalidate cc (some n) =
    if less n 0 then cc else record cc { stale_while_revalidate = n }

abbrev pub set_stale_if_error : CacheControl → Option ℕ → CacheControl
set_stale_if_error cc none = cc
set_stale_if_error cc (some n) = if less n 0 then cc else record cc { stale_if_error = n }

-- The `switch` on a directive's name: the cases that read a number, and then all of them.
unfoldable pub apply_number : CacheControl → Text → Option ℕ → CacheControl
apply_number cc name n =
    if text_eq name (codes "max-age")
    then set_max_age cc n
    else if text_eq name (codes "s-maxage")
    then set_s_max_age cc n
    else if text_eq name (codes "stale-while-revalidate")
    then set_stale_while_revalidate cc n
    else if text_eq name (codes "stale-if-error")
    then set_stale_if_error cc n
    else cc

unfoldable pub apply_directive : CacheControl → Text → Text → CacheControl
unfolding apply_number
apply_directive cc name val =
    if text_eq name (codes "private")
    then record cc { is_private = true }
    else if text_eq name (codes "no-store")
    then record cc { no_store = true }
    else if text_eq name (codes "no-cache")
    then record cc { no_cache = true }
    else if text_eq name (codes "public")
    then record cc { is_public = true }
    else if text_eq name (codes "must-revalidate")
    then record cc { must_revalidate = true }
    else if text_eq name (codes "proxy-revalidate")
    then record cc { proxy_revalidate = true }
    else apply_number cc name (parse_int val)

-- `strings.Trim(s, "\"")`.
abbrev pub trim_quotes : Text → Text
trim_quotes s = trim_right (λ c. c == b'"') (trim_left (λ c. c == b'"') s)

abbrev pub directive_name : Text → Text
directive_name raw = to_lower (trim_space (cut b'=' (trim_space raw)).0)

abbrev pub directive_value : Text → Text
directive_value raw = trim_quotes (trim_space (cut b'=' (trim_space raw)).1)

unfoldable pub read_directive : CacheControl → Text → CacheControl
unfolding apply_directive
read_directive cc raw =
    if text_eq (trim_space raw) []
    then cc
    else apply_directive cc (directive_name raw) (directive_value raw)

unfoldable pub read_directives : CacheControl → List Text → CacheControl
unfolding read_directive
read_directives cc [] = cc
read_directives cc (raw ∷ raws) = read_directives (read_directive cc raw) raws

unfoldable pub parse_cache_control : Header → CacheControl
unfolding values tokens read_directives
parse_cache_control h = read_directives no_directives (tokens (values h (codes "Cache-Control")))
