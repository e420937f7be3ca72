-- ===== src/Text/Decimal.antt =====
-- `std::to_string(int)` and `std::stoi`, which src/common/config.cpp calls.
pub mod RoundTrip
pub mod Size
use order_engine.Prelude.{
  ℕ, zero, suc, ◌+◌, ◌-◌, ◌*◌, ◌/◌, ◌%◌, Bool, ◌&&◌, ◌||◌, Option, none, some, [], ◌∷◌, ◌++◌, Bytes,
  leb, ltb, ◌==◌, if◌then◌else◌, ℤ, pos, negsuc, fits_int,
}
use order_engine.Text.Trim.{strip_left}

-- The digits of `n`, at most `fuel` of them.
pub digits : ℕ → ℕ → Bytes
digits zero n = []
digits (suc fuel) n =
    let before = digits fuel (n / 10) in
    if ltb n 10 then (n + b'0') ∷ [] else before ++ (n % 10 + b'0') ∷ []

-- An `int` has at most ten digits.
abbrev pub max_digits : ℕ
max_digits = 10

unfoldable pub to_string : ℤ → Bytes
unfolding digits
to_string (pos n) = digits max_digits n
to_string (negsuc n) = b'-' ∷ digits max_digits (suc n)

unfoldable pub is_digit : ℕ → Bool
is_digit c = leb b'0' c && leb c b'9'

-- `isspace` in the C locale: " \t\n\v\f\r".
unfoldable is_c_space : ℕ → Bool
is_c_space c = c == b' ' || leb 9 c && leb c 13

-- The value of the digits at the front, after `acc`; what follows them is not read.
unfoldable pub leading : ℕ → Bytes → ℕ
unfolding is_digit
leading acc [] = acc
leading acc (c ∷ s) =
    let rest = leading (acc * 10 + (c - b'0')) s in if is_digit c then rest else acc

abbrev pub negate : ℕ → ℤ
negate zero = pos 0
negate (suc n) = negsuc n

-- The number after the sign. `none` is `std::invalid_argument` or `std::out_of_range`.
unfoldable pub unsigned : (ℕ → ℤ) → Bytes → Option ℤ
unsigned sign [] = none
unsigned sign (c ∷ s) =
    if is_digit c
    then (let z = sign (leading 0 (c ∷ s)) in if fits_int z then some z else none)
    else none

after_space : Bytes → Option ℤ
after_space [] = none
after_space (c ∷ s) =
    if c == b'-'
    then unsigned negate s
    else if c == b'+'
    then unsigned pos s
    else unsigned pos (c ∷ s)

unfoldable pub stoi : Bytes → Option ℤ
unfolding after_space unsigned is_c_space leading
stoi s = after_space (strip_left is_c_space s)
