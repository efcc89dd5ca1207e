-- ===== src/Cache/Policy/Decide.antt =====
-- `decide` and `decideForced`.
use parapet.Prelude.{
  ℕ, ◌+◌, List, [], ◌∷◌, Option, none, some, Bool, true, false, not, ◌&&◌, ◌||◌, ◌==◌,
  if◌then◌else◌,
}
use parapet.GoInt64.{less}
use parapet.GoStrings.{Text, text_eq, codes, to_lower, trim_space, has_prefix}
use parapet.GoStrings.ParseInt.{parse_int}
use parapet.Cache.Policy.{
  Header, CacheControl, values, get, max_ttl, cacheable_status, parse_cache_control,
}
use parapet.Cache.Policy.Vary.{parse_vary}
use parapet.Cache.Policy.Freshness.{clamp_stale_window, stale_windows, freshness}

pub record Decision : Type 0 where
  pub fresh_until : ℕ
  pub vary : List Text
  pub stale_while_revalidate : ℕ
  pub stale_if_error : ℕ
  pub cacheable : Bool
  pub no_stale : Bool

abbrev pub refused : Decision
refused = record {
  fresh_until = 0;
  vary = [];
  stale_while_revalidate = 0;
  stale_if_error = 0;
  cacheable = false;
  no_stale = false;
}

pub data OverrideMode : Type 0 where
  balanced : OverrideMode
  conservative : OverrideMode
  aggressive : OverrideMode

pub record Override : Type 0 where
  pub ttl : ℕ
  pub stale_while_revalidate : ℕ
  pub stale_if_error : ℕ
  pub mode : OverrideMode

-- `none` is a refusal.
unfoldable pub store_refusals : ℕ → Header → Option (List Text)
store_refusals status h =
    if not (cacheable_status status)
    then none
    else elim (values h (codes "Set-Cookie")) [ [] ↦ parse_vary h | v ∷ vs ↦ none ]

unfoldable pub shared_opt_in : CacheControl → Bool
shared_opt_in cc = cc.is_public || cc.has_s_max || cc.must_revalidate

unfoldable pub content_length : Header → Option ℕ
content_length h =
    if text_eq (get h (codes "Content-Length")) []
    then none
    else parse_int (trim_space (get h (codes "Content-Length")))

unfoldable pub is_event_stream : Header → Bool
is_event_stream h =
    let ct = to_lower (trim_space (get h (codes "Content-Type"))) in
    text_eq ct (codes "text/event-stream") || has_prefix ct (codes "text/event-stream;")

unfoldable pub fits_cap : Text → Header → ℕ → Bool → Bool
unfolding content_length is_event_stream
fits_cap method h max_file_size cache_chunked =
    if not (text_eq method (codes "GET")) then true else elim (content_length h) [
      | none ↦ cache_chunked && not (is_event_stream h)
      | some cl ↦ not (less cl 0) && not (less max_file_size cl)
    ]

-- The refusals over the origin's Cache-Control that each mode keeps.
unfoldable pub mode_refuses : OverrideMode → CacheControl → Bool → Bool
mode_refuses conservative cc authorized =
    cc.is_private || cc.no_store || cc.no_cache || (authorized && not (shared_opt_in cc))
mode_refuses balanced cc authorized =
    cc.is_private || cc.no_store || (authorized && not (shared_opt_in cc))
mode_refuses aggressive cc authorized = false

-- A window of the origin's, or the forced one if it gives none and does not forbid it.
unfoldable pub filled : Bool → ℕ → ℕ → ℕ
filled no_stale window forced =
    if no_stale then window else if window == 0 then clamp_stale_window forced else window

-- The forced lifetime, windows and `noStale` of each mode.
unfoldable pub forced_ttl : Override → ℕ → ℕ
forced_ttl ov origin = elim ov.mode [
  | conservative ↦ if less 0 origin then origin else ov.ttl
  | balanced ↦ ov.ttl
  | aggressive ↦ ov.ttl
]

unfoldable pub forced_windows : Override → CacheControl → ℕ × ℕ × Bool
unfolding filled
forced_windows ov cc = elim ov.mode [
  | conservative ↦
      let no_stale = cc.must_revalidate || cc.proxy_revalidate in
      let (swr, sie) = stale_windows cc in
      (
        filled no_stale swr ov.stale_while_revalidate,
        filled no_stale sie ov.stale_if_error,
        no_stale,
      )
  | balanced ↦
      (clamp_stale_window ov.stale_while_revalidate, clamp_stale_window ov.stale_if_error, false)
  | aggressive ↦
      (clamp_stale_window ov.stale_while_revalidate, clamp_stale_window ov.stale_if_error, false)
]

-- The end that both functions share: the test of the lifetime and of the size, and the clamp.
unfoldable pub settle : Bool → ℕ → ℕ → List Text → ℕ × ℕ × Bool → Decision
settle fits ttl now vary (swr, sie, no_stale) =
    if not (less 0 ttl) then refused else if not fits then refused else record {
      fresh_until = now + (if less max_ttl ttl then max_ttl else ttl);
      vary = vary;
      stale_while_revalidate = swr;
      stale_if_error = sie;
      cacheable = true;
      no_stale = no_stale;
    }

module _ (parse_time : Text → Option ℕ) where
  unfoldable pub decide : Text → ℕ → Header → Bool → ℕ → Bool → ℕ → Decision
  decide method status h authorized max_file_size cache_chunked now =
      let cc = parse_cache_control h in
      elim (store_refusals status h) [
        | none ↦ refused
        | some vary ↦
            if cc.is_private || cc.no_store || cc.no_cache
            then refused
            else if authorized && not (shared_opt_in cc)
            then refused
            else settle (fits_cap method h max_file_size cache_chunked)
                (freshness parse_time cc h now) now vary
                (
                  (stale_windows cc).0,
                  (stale_windows cc).1,
                  cc.must_revalidate || cc.proxy_revalidate,
                )
      ]

  unfoldable pub decide_forced : Text → ℕ → Header → Bool → ℕ → Bool → ℕ → Override → Decision
  decide_forced method status h authorized max_file_size cache_chunked now ov =
      let cc = parse_cache_control h in
      elim (store_refusals status h) [
        | none ↦ refused
        | some vary ↦
            if mode_refuses ov.mode cc authorized
            then refused
            else settle (fits_cap method h max_file_size cache_chunked)
                (forced_ttl ov (freshness parse_time cc h now)) now vary (forced_windows ov cc)
      ]
