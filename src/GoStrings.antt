-- ===== src/GoStrings.antt =====
-- The functions of Go's `strings` and `net` that the modelled files call, over the bytes of a text.
-- Letters and white space are those of ASCII: the Unicode cases of `ToLower` and `TrimSpace` are not
-- modelled.
pub mod Split
pub mod HostPort
pub mod Bytes
pub mod ParseInt
use Prim.Native.Char.{code}
use Prim.Native.String
use Prim.Native.String.{String}
use mathlib.Core.List
use parapet.Prelude.{
  ℕ, zero, suc, ◌+◌, ◌-◌, ◌≡◌, ◌≢◌, ◌↔◌, refl, ap, List, [], ◌∷◌, ◌++◌, Bool, true, false, ◌&&◌,
  ◌||◌, not, Option, none, some, arith, ltb, leb, ◌==◌, if◌then◌else◌, map, reverse, Bool-cases,
  inl, inr,
}

abbrev pub Text : Type 0
Text = List ℕ

-- A literal: its bytes, as its characters are ASCII.
abbrev pub codes : String → Text
codes String.[] = []
codes (String.◌∷◌ c s) = code c ∷ codes s

unfoldable pub text_eq : Text → Text → Bool
text_eq [] [] = true
text_eq (x ∷ xs) (y ∷ ys) = x == y && text_eq xs ys
text_eq _ _ = false

pub text_eq_iff : (xs ys : Text) → (text_eq xs ys ≡ true) ↔ (xs ≡ ys)
unfolding text_eq
text_eq_iff [] [] = ground arith
text_eq_iff (x ∷ xs) (y ∷ ys) = ground (arith, text_eq_iff xs ys)
text_eq_iff [] (y ∷ ys) = ground arith
text_eq_iff (x ∷ xs) [] = ground arith

pub ne_of_text_eq : (xs ys : Text) → text_eq xs ys ≡ false → xs ≢ ys
ne_of_text_eq xs ys e h = ground (arith, text_eq_iff xs ys)

unfoldable pub Text-discrete : Discrete Text
unfolding text_eq
Text-discrete xs ys = elim (Bool-cases (text_eq xs ys)) [
  | inl e ↦ yes ((text_eq_iff xs ys).0 e)
  | inr e ↦ no (ne_of_text_eq xs ys e)
]

-- `strings.ToLower`.
unfoldable pub lower : ℕ → ℕ
lower c = if leb b'A' c && leb c b'Z' then c + 32 else c

unfoldable pub to_lower : Text → Text
unfolding lower
to_lower = map lower

unfoldable pub is_space : ℕ → Bool
is_space c = c == b' ' || (leb 9 c && leb c 13)

-- Drops what the test accepts from the front.
unfoldable pub trim_left : (ℕ → Bool) → Text → Text
trim_left p [] = []
trim_left p (c ∷ s) = if p c then trim_left p s else c ∷ s

unfoldable pub trim_right : (ℕ → Bool) → Text → Text
trim_right p [] = []
trim_right p (c ∷ s) = let rest = trim_right p s in if text_eq rest [] && p c then [] else c ∷ rest

-- `strings.TrimSpace`.
unfoldable pub trim_space : Text → Text
unfolding is_space trim_left trim_right
trim_space s = trim_right is_space (trim_left is_space s)

-- `strings.HasPrefix`.
unfoldable pub has_prefix : Text → Text → Bool
has_prefix s [] = true
has_prefix [] (d ∷ p) = false
has_prefix (c ∷ s) (d ∷ p) = c == d && has_prefix s p

-- `strings.IndexByte(s, c) >= 0`.
unfoldable pub contains_byte : ℕ → Text → Bool
contains_byte c [] = false
contains_byte c (d ∷ s) = d == c || contains_byte c s

-- What stands before the first byte c: the whole text, if it has none.
unfoldable pub before_byte : ℕ → Text → Text
before_byte c [] = []
before_byte c (d ∷ s) = if d == c then [] else d ∷ before_byte c s
