-- ===== src/Cache/Policy/Directives.antt =====
-- What the Cache-Control parser makes of the directives: a flag is set by its name alone, wherever
-- and however often it stands.
use parapet.Prelude.{
  ◌∙◌, ap, ◌≡◌, refl, List, [], ◌∷◌, Option, none, some, Bool, true, false, not, ◌&&◌, ◌||◌, arith,
  inl, inr, Bool-cases, ℕ,
}
use parapet.GoStrings.{Text, text_eq, text_eq_iff, codes, trim_space}
use parapet.GoStrings.ParseInt.{parse_int}
use parapet.Cache.Policy.{
  CacheControl, no_directives, apply_directive, apply_number, read_directive, read_directives,
  parse_cache_control, directive_name, directive_value, tokens, values, Header,
}

-- A field of the header names the directive.
unfoldable pub mentions : Text → List Text → Bool
mentions name [] = false
mentions name (raw ∷ raws) =
    (not (text_eq (trim_space raw) []) && text_eq (directive_name raw) name) || mentions name raws

-- The flags that forbid storing a response or serving it stale.
abbrev pub Flags : Type 0
Flags = Bool × Bool × Bool × Bool × Bool

abbrev pub flags : CacheControl → Flags
flags cc = (cc.is_private, cc.no_store, cc.no_cache, cc.must_revalidate, cc.proxy_revalidate)

-- The same, by what the fields mention.
abbrev pub mentioned : List Text → Flags
mentioned raws = (
  mentions (codes "private") raws,
  mentions (codes "no-store") raws,
  mentions (codes "no-cache") raws,
  mentions (codes "must-revalidate") raws,
  mentions (codes "proxy-revalidate") raws,
)

abbrev either : Flags → Flags → Flags
either (a, b, c, d, e) (a', b', c', d', e') = (a || a', b || b', c || c', d || d', e || e')

apply_number-flags :
    (cc : CacheControl) (name : Text) (n : Option ℕ) → flags (apply_number cc name n) ≡ flags cc
unfolding apply_number
apply_number-flags cc name none = ground arith
apply_number-flags cc name (some n) = ground arith

apply_directive-flags :
    (cc : CacheControl) (name val : Text)
    → flags (apply_directive cc name val) ≡ (
      text_eq name (codes "private") || cc.is_private,
      text_eq name (codes "no-store") || cc.no_store,
      text_eq name (codes "no-cache") || cc.no_cache,
      text_eq name (codes "must-revalidate") || cc.must_revalidate,
      text_eq name (codes "proxy-revalidate") || cc.proxy_revalidate,
    )
unfolding apply_directive text_eq
apply_directive-flags cc name val = elim (Bool-cases (text_eq name (codes "private"))) [
  | inl e ↦ rw ((text_eq_iff name (codes "private")).0 e) refl
  | inr h0 ↦ elim (Bool-cases (text_eq name (codes "no-store"))) [
    | inl e ↦ rw ((text_eq_iff name (codes "no-store")).0 e) refl
    | inr h1 ↦ elim (Bool-cases (text_eq name (codes "no-cache"))) [
      | inl e ↦ rw ((text_eq_iff name (codes "no-cache")).0 e) refl
      | inr h2 ↦ elim (Bool-cases (text_eq name (codes "public"))) [
        | inl e ↦ rw ((text_eq_iff name (codes "public")).0 e) refl
        | inr h3 ↦ elim (Bool-cases (text_eq name (codes "must-revalidate"))) [
          | inl e ↦ rw ((text_eq_iff name (codes "must-revalidate")).0 e) refl
          | inr h4 ↦ elim (Bool-cases (text_eq name (codes "proxy-revalidate"))) [
            | inl e ↦ rw ((text_eq_iff name (codes "proxy-revalidate")).0 e) refl
            | inr h5 ↦ ground (arith, apply_number-flags cc name (parse_int val))
          ]
        ]
      ]
    ]
  ]
]

same_flags :
    {a b c d e a' b' c' d' e' : Bool}
    → a ≡ a'
    → b ≡ b'
    → c ≡ c'
    → d ≡ d'
    → e ≡ e'
    → ◌≡◌ {A = Flags} (a, b, c, d, e) (a', b', c', d', e')
same_flags p q r s t = λ i. (p i, q i, r i, s i, t i)

or_swap : (m t c : Bool) → (m || (t || c)) ≡ ((t || m) || c)
or_swap true true c = refl
or_swap true false c = refl
or_swap false true c = refl
or_swap false false c = refl

or_false : (a : Bool) → (a || false) ≡ a
or_false true = refl
or_false false = refl

either_swap : (m t f : Flags) → either m (either t f) ≡ either (either t m) f
either_swap (m, n, o, p, q) (t, u, v, w, x) (a, b, c, d, e) =
    same_flags (or_swap m t a) (or_swap n u b) (or_swap o v c) (or_swap p w d) (or_swap q x e)

either_none : (m : Flags) → either m (flags no_directives) ≡ m
either_none (m, n, o, p, q) =
    same_flags (or_false m) (or_false n) (or_false o) (or_false p) (or_false q)

-- What one field gives.
abbrev own : Text → Flags
own raw =
    let name = directive_name raw in
    let there = not (text_eq (trim_space raw) []) in
    (
      there && text_eq name (codes "private"),
      there && text_eq name (codes "no-store"),
      there && text_eq name (codes "no-cache"),
      there && text_eq name (codes "must-revalidate"),
      there && text_eq name (codes "proxy-revalidate"),
    )

read_directive-flags :
    (cc : CacheControl) (raw : Text) → flags (read_directive cc raw) ≡ either (own raw) (flags cc)
unfolding read_directive
read_directive-flags cc raw = elim (Bool-cases (text_eq (trim_space raw) [])) [
  | inl e ↦ rw e refl
  | inr e ↦ rw e (apply_directive-flags cc (directive_name raw) (directive_value raw))
]

read_directives-flags :
    (cc : CacheControl) (raws : List Text)
    → flags (read_directives cc raws) ≡ either (mentioned raws) (flags cc)
unfolding read_directives mentions
read_directives-flags cc [] = refl
read_directives-flags cc (raw ∷ raws) =
    read_directives-flags (read_directive cc raw) raws
    ∙ ap (either (mentioned raws)) (read_directive-flags cc raw)
    ∙ either_swap (mentioned raws) (own raw) (flags cc)

-- Each flag that forbids storing a response, or serving it stale, is set exactly when some field of
-- some Cache-Control value has that name, whatever the other fields, their order and their values.
pub parse_cache_control-flags :
    (h : Header)
    → flags (parse_cache_control h) ≡ mentioned (tokens (values h (codes "Cache-Control")))
unfolding parse_cache_control
parse_cache_control-flags h =
    let raws = tokens (values h (codes "Cache-Control")) in
    read_directives-flags no_directives raws ∙ either_none (mentioned raws)
