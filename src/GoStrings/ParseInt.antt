-- ===== src/GoStrings/ParseInt.antt =====
-- `strconv.ParseInt(s, 10, 64)`: the word, or `none` for an error of syntax or of range.
use parapet.Prelude.{
  ℕ, ◌+◌, ◌-◌, ◌*◌, [], ◌∷◌, Option, none, some, Bool, ◌&&◌, ◌==◌, ltb, leb, if◌then◌else◌,
}
use parapet.GoStrings.{Text}
use parapet.GoInt64.{sign_bit, modulus}

unfoldable pub is_digit : ℕ → Bool
is_digit c = leb b'0' c && leb c b'9'

-- The number that the digits make, after those before them.
unfoldable pub digits : ℕ → Text → Option ℕ
unfolding is_digit
digits n [] = some n
digits n (c ∷ s) = let rest = digits (10 * n + (c - b'0')) s in if is_digit c then rest else none

unfoldable pub unsigned : Text → Option ℕ
unfolding digits
unsigned [] = none
unsigned (c ∷ s) = digits 0 (c ∷ s)

unfoldable pub negated : Option ℕ → Option ℕ
negated none = none
negated (some n) = if leb n sign_bit then some (if n == 0 then 0 else modulus - n) else none

unfoldable pub in_range : Option ℕ → Option ℕ
in_range none = none
in_range (some n) = if ltb n sign_bit then some n else none

unfoldable pub parse_int : Text → Option ℕ
unfolding unsigned negated in_range
parse_int [] = none
parse_int (c ∷ s) =
    if c == b'-'
    then negated (unsigned s)
    else if c == b'+'
    then in_range (unsigned s)
    else in_range (unsigned (c ∷ s))
