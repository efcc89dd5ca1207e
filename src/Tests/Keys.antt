-- ===== src/Tests/Keys.antt =====
-- The keys of pkg/cache/cache.go at small inputs.
use parapet.Prelude.{◌≡◌, refl, [], ◌∷◌, true, false, All, arith, ◌++◌}
use parapet.Prelude.Assoc
use parapet.GoStrings.{codes, text_eq, lower, contains_byte}
use parapet.GoStrings.HostPort.{norm_host, split_host_port}
use parapet.Cache.Keys.{scheme_of, Request, primary_text, variance, variant_of}
use parapet.Cache.Keys.Injective.{variant_text-parts}

abbrev page : Request
page = record {
  host = codes "A:443";
  method = codes "GET";
  forwarded_proto = codes "HTTPS";
  tls = false;
  uri = codes "/";
  get = λ _. codes "gzip";
}

-- The same page, with another spelling of the host and TLS of its own.
abbrev again : Request
again = record page { host = codes "a"; forwarded_proto = []; tls = true }

same_text : primary_text page ≡ primary_text again
unfolding primary_text norm_host split_host_port lower text_eq contains_byte
same_text = refl

junk_is_http : scheme_of (codes "ftp") false ≡ codes "http"
unfolding scheme_of lower text_eq
junk_is_http = refl

unknown_vary : variant_of [] (codes "p") page.get ≡ codes "p" ++ 0 ∷ []
unfolding variant_of variance Assoc.get
unknown_vary = refl

variant_text-parts_example :
    (codes "p" ≡ codes "p")
    × All (λ name. page.get name ≡ again.get name) (codes "accept-encoding" ∷ [])
variant_text-parts_example =
    variant_text-parts (codes "p") (codes "p") (codes "accept-encoding" ∷ []) page.get again.get
      (omega arith, tt) (omega arith, tt)
      (
        (
          (omega arith, (omega arith, (omega arith, (omega arith, tt)))),
          (omega arith, (omega arith, (omega arith, (omega arith, tt)))),
        ),
        tt,
      )
      refl
