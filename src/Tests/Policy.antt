-- ===== src/Tests/Policy.antt =====
-- pkg/cache/policy.go at small inputs. No date is ever parsed here.
use parapet.Prelude.{ℕ, ◌*◌, ◌≡◌, refl, [], ◌∷◌, Option, none, some, true, false}
use parapet.Prelude.Assoc
use parapet.GoInt64.{less, second, sub, mul}
use parapet.GoStrings.{Text, codes, text_eq, Text-discrete, to_lower, trim_space}
use parapet.GoStrings.Split.{split, cut}
use parapet.GoStrings.ParseInt.{parse_int}
use parapet.Cache.Policy.{Header, values, get, parse_cache_control, no_directives, cacheable_status}
use parapet.Cache.Policy.Vary.{parse_vary}
use parapet.Cache.Policy.Freshness.{freshness, freshness_lifetime, response_age}
use parapet.Cache.Policy.Decide.{Override, balanced, decide, settle, store_refusals, fits_cap}
use parapet.Cache.Policy.Ladder.{IsSafe, decide-IsSafe}

abbrev no_dates : Text → Option ℕ
no_dates t = none

abbrev header : Header
header =
    (codes "Cache-Control", codes "public, Max-Age=60" ∷ [])
    ∷ (codes "Age", codes "20" ∷ [])
    ∷ (codes "Content-Length", codes "5" ∷ [])
    ∷ (codes "Vary", codes "Accept , origin" ∷ codes "accept" ∷ [])
    ∷ []

vary_names : parse_vary header ≡ some (codes "accept" ∷ codes "origin" ∷ [])
unfolding parse_vary Assoc.get Text-discrete text_eq to_lower trim_space split
vary_names = refl

-- A lifetime above the int64 of nanoseconds wraps: ten years and more become less than a second.
wrapped_lifetime :
    freshness_lifetime no_dates
      (record no_directives { max_age = 18446744074; has_max = true })
      []
      0
    ≡ 290448384
unfolding freshness_lifetime mul
wrapped_lifetime = refl

parsed : (parse_cache_control header).max_age ≡ 60
unfolding parse_cache_control Assoc.get Text-discrete text_eq to_lower trim_space split cut
    parse_int
parsed = refl

aged : response_age no_dates header 0 ≡ 20 * second
unfolding response_age get Assoc.get Text-discrete text_eq trim_space parse_int less mul
aged = refl

cacheable_page : (decide no_dates (codes "GET") 200 header false 100 false 1000).cacheable ≡ true
unfolding decide settle store_refusals cacheable_status values Assoc.get Text-discrete text_eq
    parse_vary to_lower trim_space split cut parse_cache_control parse_int freshness
    freshness_lifetime response_age get less sub mul fits_cap
cacheable_page = refl

decide-IsSafe_example :
    IsSafe 200 header false 1000 (decide no_dates (codes "GET") 200 header false 100 false 1000)
decide-IsSafe_example =
    decide-IsSafe no_dates (codes "GET") 200 header false 100 false 1000 cacheable_page

abbrev one_minute : Override
one_minute = record {
  ttl = 60000000000;
  stale_while_revalidate = 5;
  stale_if_error = 6;
  mode = balanced;
}
