-- ===== src/Cache/Keys.antt =====
-- pkg/cache/cache.go: what the keys of the primaries and of their variants are hashed from, and the map of
-- the Vary names that are learned. SHA-256 is left out: a key is the text that is hashed. A request's
-- header is what `Header.Get` answers for each name.
use parapet.Prelude.{
  ℕ, ◌+◌, List, [], ◌∷◌, ◌++◌, Option, none, some, Bool, true, false, ◌&&◌, ◌||◌, not, ltb, leb,
  ◌==◌, if◌then◌else◌, length,
}
use parapet.Prelude.Assoc
use parapet.GoStrings.{Text, Text-discrete, text_eq, codes, to_lower}
use parapet.GoStrings.HostPort.{norm_host}
pub mod Injective

-- `schemeOf`, of the X-Forwarded-Proto and of whether the connection has TLS.
unfoldable pub scheme_of : Text → Bool → Text
unfolding to_lower
scheme_of forwarded tls =
    if text_eq (to_lower forwarded) (codes "https")
    then codes "https"
    else if text_eq (to_lower forwarded) (codes "http")
    then codes "http"
    else if tls
    then codes "https"
    else codes "http"

pub record Request : Type 0 where
  pub host : Text
  pub method : Text
  pub forwarded_proto : Text
  pub tls : Bool
  pub uri : Text
  pub get : Text → Text

abbrev pub newline : ℕ
newline = 10

-- What `primaryHash` hashes.
unfoldable pub primary_text : Request → Text
unfolding norm_host scheme_of
primary_text r =
    norm_host r.host
    ++ newline ∷ (r.method ++ newline ∷ (scheme_of r.forwarded_proto r.tls ++ newline ∷ r.uri))

-- One turn of the loop in `variantHashFor`.
unfoldable pub variance : (Text → Text) → List Text → Text
variance get [] = []
variance get (name ∷ names) = name ++ b'=' ∷ (get name ++ newline ∷ variance get names)

-- What `variantHashFor` hashes.
unfoldable pub variant_text : Text → List Text → (Text → Text) → Text
variant_text primary_hex names get = primary_hex ++ 0 ∷ variance get names

-- `getPrimaryVary`: a primary that is not in the map has no names.
unfoldable pub get_primary_vary : List (Text × List Text) → Text → List Text
get_primary_vary primary_vary primary_hex =
    elim (Assoc.get Text-discrete primary_hex primary_vary) [ none ↦ [] | some names ↦ names ]

-- `variantHash`.
unfoldable pub variant_of : List (Text × List Text) → Text → (Text → Text) → Text
unfolding variant_text get_primary_vary
variant_of primary_vary primary_hex get =
    variant_text primary_hex (get_primary_vary primary_vary primary_hex) get
