-- ===== src/Text.antt =====
-- The operations of `std::string` and `std::istream` that src/common/config.cpp calls. `none` is
-- `std::string::npos`.
pub mod Trim
pub mod Lines
pub mod Decimal
use mathlib.Core.Option
use order_engine.Prelude.{
  ℕ, suc, Bool, ◌||◌, Option, none, some, List, [], ◌∷◌, Bytes, drop, take, ◌==◌, if◌then◌else◌,
}

-- The set " \t\r\n".
unfoldable pub is_space : ℕ → Bool
is_space c = c == b' ' || c == b'\t' || c == b'\r' || c == b'\n'

-- The set " \t".
unfoldable pub is_blank : ℕ → Bool
is_blank c = c == b' ' || c == b'\t'

unfoldable pub find_first_not_of : (ℕ → Bool) → Bytes → Option ℕ
find_first_not_of p [] = none
find_first_not_of p (c ∷ s) = if p c then Option.map suc (find_first_not_of p s) else some 0

-- The last index outside the set, where `later` is that of the rest of the string.
abbrev last_index : Bool → Option ℕ → Option ℕ
last_index inside (some i) = some (suc i)
last_index inside none = if inside then none else some 0

unfoldable pub find_last_not_of : (ℕ → Bool) → Bytes → Option ℕ
find_last_not_of p [] = none
find_last_not_of p (c ∷ s) = last_index (p c) (find_last_not_of p s)

-- s.erase(0, pos)
abbrev pub erase_before : Option ℕ → Bytes → Bytes
erase_before none s = []
erase_before (some i) s = drop i s

-- s.erase(pos + 1); npos + 1 is 0.
abbrev pub erase_after : Option ℕ → Bytes → Bytes
erase_after none s = []
erase_after (some i) s = take (suc i) s

-- The pair of erase calls that strips a string at both ends.
unfoldable pub strip : (ℕ → Bool) → Bytes → Bytes
unfolding find_first_not_of find_last_not_of
strip p s = let t = erase_before (find_first_not_of p s) s in erase_after (find_last_not_of p t) t

-- s.find(c)
unfoldable pub find : ℕ → Bytes → Option ℕ
find c [] = none
find c (x ∷ s) = if x == c then some 0 else Option.map suc (find c s)

-- s[0], which is '\0' for the empty string.
abbrev pub front : Bytes → ℕ
front [] = 0
front (c ∷ s) = c

-- s.back(), for a string that is not empty.
abbrev pub back : Bytes → ℕ
back [] = 0
back (c ∷ []) = c
back (c ∷ d ∷ s) = back (d ∷ s)

-- The first byte of the first line.
abbrev pub onto_first : ℕ → List Bytes → List Bytes
onto_first c [] = (c ∷ []) ∷ []
onto_first c (l ∷ ls) = (c ∷ l) ∷ ls

-- What `while (std::getline(stream, line))` reads: a last line needs no newline, and an empty rest
-- is no line.
unfoldable pub lines : Bytes → List Bytes
lines [] = []
lines (c ∷ s) = let rest = lines s in if c == b'\n' then [] ∷ rest else onto_first c rest
