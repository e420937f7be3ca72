-- ===== src/Text/Decimal/Size.antt =====
-- How many characters `std::to_string` gives.
use native.Mathlib.Nat.{pow-suc}
use order_engine.Prelude.{
  ℕ, zero, suc, ◌+◌, ◌/◌, ◌%◌, ◌*◌, ◌^◌, ◌<◌, ◌≤◌, ◌≡◌, Bool-cases, inl, inr, true, ltb, [], ◌∷◌,
  ◌++◌, Bytes, length, pos, arith,
}
use order_engine.Text.Decimal.{digits, to_string}

length-concat : (s : Bytes) (c : ℕ) → length (s ++ c ∷ []) ≡ suc (length s)
length-concat [] c = omega arith
length-concat (x ∷ s) c = omega (arith, length-concat s c)

one_digit : (n : ℕ) → n < 10 ^ 1 → ltb n 10 ≡ true
one_digit n h = ground arith

length-digits : (f m n : ℕ) → n < 10 ^ suc m → length (digits f n) ≤ suc m
unfolding digits
length-digits zero m n h = omega arith
length-digits (suc f) zero n h = rw (one_digit n h) (omega arith)
length-digits (suc f) (suc m) n h =
    let e : 10 ^ suc (suc m) ≡ 10 ^ suc m * 10 = pow-suc 10 (suc m) in
    let before = length-digits f m (n / 10) (omega (arith, e, h)) in
    elim (Bool-cases (ltb n 10)) [
      | inl small ↦ rw small (omega arith)
      | inr large ↦
          rw large (omega (arith, length-concat (digits f (n / 10)) (n % 10 + b'0'), before))
    ]

-- A number below a power of ten.
pub length-to_string : (m n : ℕ) → n < 10 ^ suc m → length (to_string (pos n)) ≤ suc m
unfolding to_string
length-to_string m n h = length-digits 10 m n h
