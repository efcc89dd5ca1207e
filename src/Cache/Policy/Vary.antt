-- ===== src/Cache/Policy/Vary.antt =====
-- `parseVary`: the names under which the variants of a response differ.
use parapet.Prelude.{
  subst, Bool-cases, inl, inr, ◌≡◌, ◌↔◌, refl, List, [], ◌∷◌, ◌++◌, Option, none, some, Bool, true,
  false, not, ◌&&◌, ◌||◌, if◌then◌else◌, arith,
}
use parapet.GoStrings.{Text, text_eq, text_eq_iff, codes, trim_space, to_lower}
use parapet.Cache.Policy.{Header, values, tokens}

unfoldable pub listed : Text → List Text → Bool
listed t [] = false
listed t (n ∷ ns) = text_eq n t || listed t ns

abbrev pub vary_name : Text → Text
vary_name raw = to_lower (trim_space raw)

-- The loop, with the names so far. `none` is a `*`.
unfoldable pub read_vary : List Text → List Text → Option (List Text)
unfolding listed
read_vary names [] = some names
read_vary names (raw ∷ raws) =
    let tok = vary_name raw in
    let rest =
      read_vary (if text_eq tok [] || listed tok names then names else names ++ tok ∷ []) raws in
    if text_eq tok (codes "*") then none else rest

unfoldable pub parse_vary : Header → Option (List Text)
unfolding read_vary values tokens
parse_vary h = read_vary [] (tokens (values h (codes "Vary")))

-- A field of the header, lowered and without its white space, is the name.
unfoldable pub varies_on : Text → List Text → Bool
varies_on t [] = false
varies_on t (raw ∷ raws) = text_eq (vary_name raw) t || varies_on t raws

abbrev pub IsUnique : List Text → Type 0
IsUnique [] = Unit {0}
IsUnique (n ∷ ns) = (listed n ns ≡ false) × IsUnique ns

pub listed-append :
    (t : Text) (xs ys : List Text) → listed t (xs ++ ys) ≡ (listed t xs || listed t ys)
unfolding listed
listed-append t [] ys = refl
listed-append t (x ∷ xs) ys = ground (arith, listed-append t xs ys)

pub push-IsUnique :
    (t : Text) (ns : List Text) → IsUnique ns → listed t ns ≡ false → IsUnique (ns ++ t ∷ [])
unfolding listed
push-IsUnique t [] u h = (refl, tt)
push-IsUnique t (n ∷ ns) u h =
    ground
      (arith, push-IsUnique t ns u.1, listed-append n ns (t ∷ []), text_eq_iff n t, text_eq_iff t n)

read_vary-star :
    (names raws : List Text) → (read_vary names raws ≡ none) ↔ (varies_on (codes "*") raws ≡ true)
unfolding read_vary varies_on listed
read_vary-star names [] = ground arith
read_vary-star names (raw ∷ raws) =
    ground (arith, read_vary-star names raws, read_vary-star (names ++ vary_name raw ∷ []) raws)

read_vary-names :
    (names raws out : List Text)
    → read_vary names raws ≡ some out
    → IsUnique names
    → IsUnique out
      × ((t : Text) → listed t out ≡ (listed t names || (varies_on t raws && not (text_eq t []))))
unfolding read_vary varies_on listed
read_vary-names names [] out e u =
    let same : names ≡ out = ground arith in
    subst (λ o. IsUnique o × ((t : Text) → listed t o ≡ (listed t names || false))) same
      (u, λ t. ground arith)
read_vary-names names (raw ∷ raws) out e u =
    let tok = vary_name raw in
    elim (Bool-cases (text_eq tok [] || listed tok names)) [
      | inl known ↦
          let (unique, all) = read_vary-names names raws out (ground arith) u in
          (
            unique,
            λ t. ground (arith, all t, text_eq_iff tok [], text_eq_iff t [], text_eq_iff tok t),
          )
      | inr new ↦
          let u' = push-IsUnique tok names u (ground arith) in
          let (unique, all) = read_vary-names (names ++ tok ∷ []) raws out (ground arith) u' in
          (
            unique,
            λ t. ground (
              arith,
              all t,
              listed-append t names (tok ∷ []),
              text_eq_iff tok [],
              text_eq_iff t [],
              text_eq_iff tok t,
            ),
          )
    ]

-- The header is refused exactly when a field is a `*`. Otherwise each name that a field gives, lowered
-- and without its white space, is there exactly once, and nothing else is, the empty name least.
pub parse_vary_lem :
    (h : Header)
    → let fields = tokens (values h (codes "Vary")) in
      ((parse_vary h ≡ none) ↔ (varies_on (codes "*") fields ≡ true))
      × ((names : List Text)
          → parse_vary h ≡ some names
          → IsUnique names
            × ((t : Text) → listed t names ≡ (varies_on t fields && not (text_eq t []))))
unfolding parse_vary listed
parse_vary_lem h =
    let fields = tokens (values h (codes "Vary")) in
    (read_vary-star [] fields, λ names e. read_vary-names [] fields names e tt)
