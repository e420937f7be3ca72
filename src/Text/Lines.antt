-- ===== src/Text/Lines.antt =====
-- Lines. (src/common/config.cpp)
use order_engine.Prelude.{
  ℕ, false, List, [], ◌∷◌, ◌⊎◌, ◌++◌, ◌≡◌, refl, ap, Bytes, All, ◌==◌, if◌then◌else◌, inl, inr,
  Bool-cases,
}
use order_engine.Text.{lines, onto_first}

-- No newline within.
abbrev pub OneLine : Bytes → Type 0
OneLine = All (λ c. (c == b'\n') ≡ false)

pub lines-cons : (l rest : Bytes) → OneLine l → lines (l ++ b'\n' ∷ rest) ≡ l ∷ lines rest
unfolding lines
lines-cons [] rest h = refl
lines-cons (c ∷ l) rest h = rw (h.0, lines-cons l rest h.1)

-- Every "\n" becomes "\r\n".
unfoldable pub crlf : Bytes → Bytes
crlf [] = []
crlf (c ∷ s) = let rest = crlf s in if c == b'\n' then b'\r' ∷ b'\n' ∷ rest else c ∷ rest

-- The second line is the first, or the first with a carriage return behind it.
abbrev pub WithReturn : Bytes → Bytes → Type 0
WithReturn l m = (m ≡ l) ⊎ (m ≡ l ++ b'\r' ∷ [])

abbrev pub AllWithReturn : List Bytes → List Bytes → Type 0
AllWithReturn [] [] = Unit
AllWithReturn (l ∷ ls) (m ∷ ms) = WithReturn l m × AllWithReturn ls ms
AllWithReturn _ _ = ⊥

onto_first-WithReturn :
    (c : ℕ) (ls ms : List Bytes)
    → AllWithReturn ls ms
    → AllWithReturn (onto_first c ls) (onto_first c ms)
onto_first-WithReturn c [] [] h = (inl refl, tt)
onto_first-WithReturn c (l ∷ ls) (m ∷ ms) (inl e, t) = (inl (ap (◌∷◌ c) e), t)
onto_first-WithReturn c (l ∷ ls) (m ∷ ms) (inr e, t) = (inr (ap (◌∷◌ c) e), t)
onto_first-WithReturn c (l ∷ ls) [] h = absurd h
onto_first-WithReturn c [] (m ∷ ms) h = absurd h

pub lines-crlf : (s : Bytes) → AllWithReturn (lines s) (lines (crlf s))
unfolding lines crlf
lines-crlf [] = tt
lines-crlf (c ∷ s) = elim (Bool-cases (c == b'\n')) [
  | inl e ↦ rw e (inr refl, lines-crlf s)
  | inr e ↦ rw (e, lines) (rw e (onto_first-WithReturn c (lines s) (lines (crlf s)) (lines-crlf s)))
]
