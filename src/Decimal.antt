-- ===== src/Decimal.antt =====
-- `%d` and `%02d` of printf and `%d` of scanf on C strings: what the program uses of the C library
-- to write and read numbers.
pub mod RoundTrip
use gmrender_resurrect_silan.Base.{
  ℕ, zero, suc, ◌+◌, ◌-◌, ◌*◌, ◌/◌, ◌%◌, Bool, true, false, ◌&&◌, ◌||◌, Option, none, some, List,
  [], ◌∷◌, ◌++◌, Text, ltb, leb, ◌==◌, if◌then◌else◌,
}
use gmrender_resurrect_silan.Base.Int.{ℤ, pos, negsuc}

-- The digits of a number, with `fuel` above the number.
unfoldable pub digits : ℕ → ℕ → Text
digits zero n = []
digits (suc fuel) n =
    let longer = digits fuel (n / 10) ++ (b'0' + n % 10) ∷ [] in
    if ltb n 10 then (b'0' + n) ∷ [] else longer

unfoldable pub show : ℕ → Text
unfolding digits
show n = digits (suc n) n

-- `%d`
unfoldable pub print_int : ℤ → Text
unfolding show
print_int (pos n) = show n
print_int (negsuc n) = b'-' ∷ show (suc n)

-- `%02d`: zeros fill the field, behind the sign.
unfoldable pub print_int_02 : ℤ → Text
unfolding show print_int
print_int_02 (pos n) = if ltb n 10 then b'0' ∷ show n else show n
print_int_02 (negsuc n) = print_int (negsuc n)

abbrev pub is_digit : ℕ → Bool
is_digit c = leb b'0' c && leb c b'9'

abbrev pub is_space : ℕ → Bool
is_space c = c == 32 || (leb 9 c && leb c 13)

unfoldable pub skip_space : Text → Text
skip_space [] = []
skip_space (c ∷ s) = let rest = skip_space s in if is_space c then rest else c ∷ s

-- Digits up to the width, which is `none` for no limit, onto the number read so far.
unfoldable pub read_digits : Option ℕ → ℕ → Text → ℕ × Text
read_digits width n [] = (n, [])
read_digits none n (c ∷ s) =
    let more = read_digits none (n * 10 + (c - b'0')) s in if is_digit c then more else (n, c ∷ s)
read_digits (some zero) n (c ∷ s) = (n, c ∷ s)
read_digits (some (suc w)) n (c ∷ s) =
    let more = read_digits (some w) (n * 10 + (c - b'0')) s in
    if is_digit c then more else (n, c ∷ s)

-- The first digit must be there.
unfoldable pub read_number : Option ℕ → Text → Option (ℕ × Text)
unfolding read_digits
read_number width [] = none
read_number (some zero) (c ∷ s) = none
read_number none (c ∷ s) = if is_digit c then some (read_digits none 0 (c ∷ s)) else none
read_number (some (suc w)) (c ∷ s) =
    if is_digit c then some (read_digits (some (suc w)) 0 (c ∷ s)) else none

abbrev pub negated : ℕ → ℤ
negated zero = pos 0
negated (suc n) = negsuc n

abbrev pub one_less : Option ℕ → Option ℕ
one_less none = none
one_less (some w) = some (w - 1)

abbrev pub with_sign : (ℕ → ℤ) → Option (ℕ × Text) → Option (ℤ × Text)
with_sign sign none = none
with_sign sign (some (n, s)) = some (sign n, s)

-- A sign counts for the width.
unfoldable pub read_signed : Option ℕ → Text → Option (ℤ × Text)
unfolding read_number
read_signed width [] = none
read_signed width (c ∷ s) =
    if c == b'-'
    then with_sign negated (read_number (one_less width) s)
    else if c == b'+'
    then with_sign pos (read_number (one_less width) s)
    else with_sign pos (read_number width (c ∷ s))

-- `%d` of scanf, with a width.
unfoldable pub scan_int : Option ℕ → Text → Option (ℤ × Text)
unfolding skip_space read_signed
scan_int width s = read_signed width (skip_space s)

-- `atoi`
abbrev pub value_or_zero : Option (ℤ × Text) → ℤ
value_or_zero none = pos 0
value_or_zero (some (n, s)) = n

unfoldable pub atoi : Text → ℤ
unfolding scan_int
atoi s = value_or_zero (scan_int none s)
