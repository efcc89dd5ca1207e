-- ===== src/Cache/Keys/Injective.antt =====
-- Different requests are hashed from different texts.
use parapet.Prelude.{ℕ, ◌≡◌, ◌≢◌, refl, sym, ap, ◌∙◌, List, [], ◌∷◌, ◌++◌, Bool, All, arith}
use parapet.GoStrings.{Text, codes, text_eq, lower, to_lower}
use parapet.GoStrings.HostPort.{norm_host}
use parapet.GoStrings.Bytes.{if-holds, norm_host-All}
use parapet.Cache.Keys.{scheme_of, Request, newline, primary_text, variance, variant_text}

-- A text without the byte.
abbrev pub Lacks : ℕ → Text → Type 0
Lacks c s = All (λ d. d ≢ c) s

-- Before the first byte c of two equal texts stands the same.
split_at :
    (c : ℕ) (xs ys us vs : Text)
    → Lacks c xs
    → Lacks c ys
    → xs ++ c ∷ us ≡ ys ++ c ∷ vs
    → (xs ≡ ys) × (us ≡ vs)
split_at c [] [] us vs p q e = (refl, cc)
split_at c [] (y ∷ ys) us vs p q e = let heads : c ≡ y = cc in absurd (q.0 (sym heads))
split_at c (x ∷ xs) [] us vs p q e = let heads : x ≡ c = cc in absurd (p.0 heads)
split_at c (x ∷ xs) (y ∷ ys) us vs p q e =
    let heads : x ≡ y = cc in
    let tails : xs ++ c ∷ us ≡ ys ++ c ∷ vs = cc in
    let (same, rest) = split_at c xs ys us vs p.1 q.1 tails in
    (ap (λ (z : ℕ). z ∷ xs) heads ∙ ap (λ (z : Text). y ∷ z) same, rest)

drop_prefix : (xs us vs : Text) → xs ++ us ≡ xs ++ vs → us ≡ vs
drop_prefix [] us vs e = e
drop_prefix (x ∷ xs) us vs e = drop_prefix xs us vs (cc)

lower-newline : (c : ℕ) → c ≢ newline → lower c ≢ newline
unfolding lower
lower-newline c h = λ e. ground arith

scheme-Lacks : (forwarded : Text) (tls : Bool) → Lacks newline (scheme_of forwarded tls)
unfolding scheme_of
scheme-Lacks forwarded tls =
    let https : Lacks newline (codes "https") =
      (omega arith, (omega arith, (omega arith, (omega arith, (omega arith, tt))))) in
    let http : Lacks newline (codes "http") =
      (omega arith, (omega arith, (omega arith, (omega arith, tt)))) in
    if-holds (Lacks newline) (text_eq (to_lower forwarded) (codes "https")) _ _ https (
      if-holds (Lacks newline) (text_eq (to_lower forwarded) (codes "http")) _ _ http
        (if-holds (Lacks newline) tls _ _ https http))

-- Two requests whose hosts and methods hold no newline are hashed to the same primary from the same text
-- only if they have the same normal form of the host, the same method, scheme and URI.
pub primary_text-parts :
    (r q : Request)
    → Lacks newline r.host
    → Lacks newline q.host
    → Lacks newline r.method
    → Lacks newline q.method
    → primary_text r ≡ primary_text q
    → (norm_host r.host ≡ norm_host q.host)
      × (r.method ≡ q.method)
      × (scheme_of r.forwarded_proto r.tls ≡ scheme_of q.forwarded_proto q.tls)
      × (r.uri ≡ q.uri)
unfolding primary_text
primary_text-parts r q rh qh rm qm e =
    let (hosts, after_host) =
      split_at newline (norm_host r.host) (norm_host q.host)
        (r.method ++ newline ∷ (scheme_of r.forwarded_proto r.tls ++ newline ∷ r.uri))
        (q.method ++ newline ∷ (scheme_of q.forwarded_proto q.tls ++ newline ∷ q.uri))
        (norm_host-All (λ d. d ≢ newline) lower-newline r.host rh)
        (norm_host-All (λ d. d ≢ newline) lower-newline q.host qh) e in
    let (methods, after_method) =
      split_at newline r.method q.method (scheme_of r.forwarded_proto r.tls ++ newline ∷ r.uri)
        (scheme_of q.forwarded_proto q.tls ++ newline ∷ q.uri) rm qm after_host in
    let (schemes, uris) =
      split_at newline (scheme_of r.forwarded_proto r.tls) (scheme_of q.forwarded_proto q.tls) r.uri
        q.uri (scheme-Lacks r.forwarded_proto r.tls) (scheme-Lacks q.forwarded_proto q.tls)
        after_method in
    (hosts, methods, schemes, uris)

variance-parts :
    (names : List Text) (get seek : Text → Text)
    → All (λ name. Lacks newline (get name) × Lacks newline (seek name)) names
    → variance get names ≡ variance seek names
    → All (λ name. get name ≡ seek name) names
unfolding variance
variance-parts [] get seek h e = tt
variance-parts (name ∷ names) get seek h e =
    let values : get name ++ newline ∷ variance get names
        ≡ seek name ++ newline ∷ variance seek names =
      drop_prefix (b'=' ∷ []) _ _ (drop_prefix name _ _ e) in
    let (same, rest) =
      split_at newline (get name) (seek name) (variance get names) (variance seek names) h.0.0 h.0.1
        values in
    (same, variance-parts names get seek h.1 rest)

-- Under the Vary names that are learned for a primary, the variants of two requests are hashed from the
-- same text only if the primaries are the same and the requests have the same value of each name, where
-- the primaries hold no zero byte and the values no newline.
pub variant_text-parts :
    (primary other : Text) (names : List Text) (get seek : Text → Text)
    → Lacks 0 primary
    → Lacks 0 other
    → All (λ name. Lacks newline (get name) × Lacks newline (seek name)) names
    → variant_text primary names get ≡ variant_text other names seek
    → (primary ≡ other) × All (λ name. get name ≡ seek name) names
unfolding variant_text
variant_text-parts primary other names get seek p o h e =
    let (same, rest) = split_at 0 primary other (variance get names) (variance seek names) p o e in
    (same, variance-parts names get seek h rest)
