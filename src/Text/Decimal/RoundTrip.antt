-- ===== src/Text/Decimal/RoundTrip.antt =====
-- `stoi` reads back what `to_string` writes (src/common/config.cpp).
use mathlib.Core.List.{concat-ne-nil}
use mathlib.Core.Logic.{◌≢◌}
use native.Mathlib.Nat.{pow-suc}
use order_engine.Prelude.{
  ℕ, zero, suc, ◌+◌, ◌-◌, ◌*◌, ◌/◌, ◌%◌, ◌^◌, ◌<◌, ◌≡◌, refl, ◌∙◌, true, some, [], ◌∷◌, ◌++◌, Bytes,
  All, arith, ℤ, pos, negsuc, fits_int, InInt,
}
use order_engine.Text.Decimal.{
  digits, max_digits, to_string, is_digit, leading, negate, unsigned, stoi,
}

abbrev AllDigits : Bytes → Type 0
AllDigits = All (λ c. is_digit c ≡ true)

is_digit_lem : (n : ℕ) → n < 10 → is_digit (n + b'0') ≡ true
unfolding is_digit
is_digit_lem n h = ground arith

AllDigits-concat : (s : Bytes) (c : ℕ) → AllDigits s → is_digit c ≡ true → AllDigits (s ++ c ∷ [])
AllDigits-concat [] c h k = (k, tt)
AllDigits-concat (x ∷ s) c h k = (h.0, AllDigits-concat s c h.1 k)

digits-AllDigits : (f n : ℕ) → AllDigits (digits f n)
unfolding digits
digits-AllDigits zero n = tt
digits-AllDigits (suc f) n = ground (
  arith,
  is_digit_lem n,
  is_digit_lem (n % 10),
  AllDigits-concat (digits f (n / 10)) (n % 10 + b'0') (digits-AllDigits f (n / 10)),
)

leading-concat :
    (acc : ℕ) (s : Bytes) (c : ℕ)
    → AllDigits s
    → is_digit c ≡ true
    → leading acc (s ++ c ∷ []) ≡ leading acc s * 10 + (c - b'0')
unfolding leading
leading-concat acc [] c h k = rw k
leading-concat acc (x ∷ s) c h k = rw (h.0) (leading-concat (acc * 10 + (x - b'0')) s c h.1 k)

leading_one : (n : ℕ) → n < 10 → leading 0 ((n + b'0') ∷ []) ≡ n
unfolding leading
leading_one n h = rw (is_digit_lem n h) (omega arith)

div_bound : (f n : ℕ) → n < 10 ^ suc f → n / 10 < 10 ^ f
div_bound f n h = let e : 10 ^ suc f ≡ 10 ^ f * 10 = pow-suc 10 f in omega arith

leading-digits : (f n : ℕ) → n < 10 ^ f → leading 0 (digits f n) ≡ n
unfolding digits
leading-digits zero n h = ground (arith, leading_zero)
  where
    leading_zero : leading 0 [] ≡ 0
    leading_zero = unfold leading in refl
leading-digits (suc f) n h = ground (
  arith,
  leading_one n,
  leading-digits f (n / 10) (div_bound f n h),
  leading-concat 0 (digits f (n / 10)) (n % 10 + b'0') (digits-AllDigits f (n / 10))
      (is_digit_lem (n % 10) (omega arith)),
)

-- A string that begins with a digit has no space or sign in front.
stoi_digits : (c : ℕ) (s : Bytes) → is_digit c ≡ true → stoi (c ∷ s) ≡ unsigned pos (c ∷ s)
unfolding is_digit stoi
stoi_digits c s h = ground arith

stoi_minus : (s : Bytes) → stoi (b'-' ∷ s) ≡ unsigned negate s
unfolding stoi
stoi_minus s = refl

-- Digits of a number that fits are read as that number.
unsigned_fits :
    (sign : ℕ → ℤ) (c : ℕ) (s : Bytes)
    → is_digit c ≡ true
    → fits_int (sign (leading 0 (c ∷ s))) ≡ true
    → unsigned sign (c ∷ s) ≡ some (sign (leading 0 (c ∷ s)))
unfolding unsigned
unsigned_fits sign c s h k = rw (h, k)

-- The text of an unsigned value: `stoi` of it, after either sign.
unsigned-digits :
    (sign : ℕ → ℤ) (n : ℕ) (s : Bytes)
    → AllDigits s
    → s ≢ []
    → leading 0 s ≡ n
    → fits_int (sign n) ≡ true
    → unsigned sign s ≡ some (sign n)
unsigned-digits sign n [] d ne e k = absurd (ne refl)
unsigned-digits sign n (c ∷ s) d ne e k = rw (← e) (unsigned_fits sign c s d.0 (rw e k))

digits-ne-nil : (f n : ℕ) → digits (suc f) n ≢ []
unfolding digits
digits-ne-nil f n h = ground (arith, concat-ne-nil (n % 10 + b'0') (digits f (n / 10)))

stoi-unsigned : (s : Bytes) → AllDigits s → s ≢ [] → stoi s ≡ unsigned pos s
stoi-unsigned [] d ne = absurd (ne refl)
stoi-unsigned (c ∷ s) d ne = stoi_digits c s d.0

-- Every `int` is read back from its text.
pub stoi-to_string : (z : ℤ) → InInt z → stoi (to_string z) ≡ some z
unfolding to_string
stoi-to_string (pos n) h =
    stoi-unsigned _ (digits-AllDigits max_digits n) (digits-ne-nil 9 n)
    ∙ unsigned-digits pos n _ (digits-AllDigits max_digits n) (digits-ne-nil 9 n)
        (leading-digits max_digits n (omega arith)) (ground arith)
stoi-to_string (negsuc n) h =
    stoi_minus (digits max_digits (suc n))
    ∙ unsigned-digits negate (suc n) _ (digits-AllDigits max_digits (suc n))
        (digits-ne-nil 9 (suc n)) (leading-digits max_digits (suc n) (omega arith)) (ground arith)

pub to_string-ne-nil : (z : ℤ) → to_string z ≢ []
unfolding to_string
to_string-ne-nil (pos n) h = digits-ne-nil 9 n h
to_string-ne-nil (negsuc n) h = cc
