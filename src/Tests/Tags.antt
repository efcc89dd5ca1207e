-- ===== src/Tests/Tags.antt =====
-- pkg/cache/tee.go at small inputs: two tags, one of them twice, and a connection header.
use parapet.Prelude.{◌≡◌, refl, [], ◌∷◌}
use parapet.Prelude.Assoc
use parapet.GoStrings.{Text-discrete, text_eq, codes, trim_space}
use parapet.GoStrings.Split.{split}
use parapet.Cache.Policy.{Header, values, tokens}
use parapet.Cache.Policy.Vary.{listed}
use parapet.Cache.Tags.{parse_cache_tags}

abbrev header : Header
header = (codes "Cache-Tag", codes "a, b" ∷ codes "a,," ∷ []) ∷ (codes "Te", codes "x" ∷ []) ∷ []

two_tags : parse_cache_tags header ≡ codes "a" ∷ codes "b" ∷ []
unfolding parse_cache_tags Assoc.get Text-discrete text_eq trim_space split values tokens listed
two_tags = refl
