-- ===== src/Tests/Host.antt =====
-- pkg/host/host.go at small inputs.
use parapet.Prelude.{
  ◌≡◌, ◌↔◌, ◌⊎◌, refl, [], ◌∷◌, none, some, true, false, All, if◌then◌else◌, arith,
}
use parapet.GoStrings.{Text, codes, lower, to_lower, text_eq, contains_byte, before_byte}
use parapet.GoStrings.HostPort.{split_host_port}
use parapet.Host.{
  last_is, butlast, drop_last, scan, unwrap, normalize_host, normalize_host_slow, listed, matches,
  never, always, new, match_request,
}
use parapet.Host.Canonical.{Plain, slices_nothing, strip_dot, strip_port, normalize_host-canonical}
use parapet.Host.Parents.{Parent, wildcard_of, matches_iff}

port_goes : normalize_host to_lower (codes "MoonRhythm.IO.:8080") ≡ some (codes "moonrhythm.io")
unfolding normalize_host normalize_host_slow scan last_is butlast drop_last unwrap to_lower
    split_host_port contains_byte text_eq
port_goes = refl

brackets_go : normalize_host to_lower (codes "[::1]") ≡ some (codes "::1")
unfolding normalize_host normalize_host_slow scan last_is butlast drop_last unwrap to_lower
    split_host_port contains_byte text_eq before_byte
brackets_go = refl

-- The slice is out of range.
no_host : normalize_host to_lower (codes ":.") ≡ none
unfolding normalize_host normalize_host_slow scan last_is butlast drop_last unwrap to_lower
    split_host_port contains_byte text_eq
no_host = refl

nested : matches (codes "*.moonrhythm.io" ∷ []) (codes "www.test.moonrhythm.io") ≡ true
unfolding matches text_eq
nested = refl

empty_label : matches (codes "*.io" ∷ []) (codes "a..io") ≡ false
unfolding matches text_eq
empty_label = refl

any_host : new to_lower (codes "a.io" ∷ codes "*" ∷ []) ≡ some always
unfolding new normalize_host scan last_is to_lower text_eq
any_host = refl

no_hosts : match_request to_lower never (codes "a.io") ≡ some false
unfolding match_request
no_hosts = refl

lower-Plain : (s : Text) → All Plain s → to_lower s ≡ s
unfolding to_lower lower
lower-Plain [] h = refl
lower-Plain (c ∷ s) h = ground (arith, lower-Plain s h.1)

normalize_host-canonical_example : normalize_host to_lower (codes "A.io:80") ≡ (
    if slices_nothing (codes "A.io:80")
    then none
    else some (to_lower (strip_dot (strip_port (codes "A.io:80")))))
normalize_host-canonical_example = normalize_host-canonical to_lower lower-Plain (codes "A.io:80")

matches_iff_example : (matches (codes "*.io" ∷ []) (codes "a.b.io") ≡ true) ↔ (
    (listed (codes "a.b.io") (codes "*.io" ∷ []) ≡ true)
    ⊎ ((p : Text) × Parent p (codes "a.b.io")
        × (listed (wildcard_of p) (codes "*.io" ∷ []) ≡ true)))
matches_iff_example = matches_iff (codes "*.io" ∷ []) (codes "a.b.io")
