-- ===== src/Server/Elements.antt =====
-- Elements of a list by their index, for the reactors of src/network/tcp_server.cpp.
use order_engine.Prelude.{
  ℕ, zero, suc, ◌<◌, ◌≡◌, refl, some, List, [], ◌∷◌, ◌++◌, ◌==◌, if◌then◌else◌, length, arith,
}
use order_engine.Server.{get_elem?, set_elem}

module _ {A : Type 0} where
  pub get_elem?-lt : (xs : List A) (i : ℕ) → i < length xs → (a : A) × (get_elem? xs i ≡ some a)
  get_elem?-lt [] i h = absurd (omega arith)
  get_elem?-lt (x ∷ xs) zero h = (x, refl)
  get_elem?-lt (x ∷ xs) (suc i) h = get_elem?-lt xs i (omega arith)

  pub get_elem?-set_elem :
      (xs : List A) (i j : ℕ) (a : A)
      → i < length xs
      → get_elem? (set_elem i a xs) j ≡ (if i == j then some a else get_elem? xs j)
  get_elem?-set_elem [] i j a h = absurd (omega arith)
  get_elem?-set_elem (x ∷ xs) zero zero a h = refl
  get_elem?-set_elem (x ∷ xs) zero (suc j) a h = ground arith
  get_elem?-set_elem (x ∷ xs) (suc i) zero a h = ground arith
  get_elem?-set_elem (x ∷ xs) (suc i) (suc j) a h =
      ground (arith, get_elem?-set_elem xs i j a (omega arith))

  pub length-set_elem : (xs : List A) (i : ℕ) (a : A) → length (set_elem i a xs) ≡ length xs
  length-set_elem [] i a = refl
  length-set_elem (x ∷ xs) zero a = refl
  length-set_elem (x ∷ xs) (suc i) a = omega (arith, length-set_elem xs i a)

  pub get_elem?-append :
      (xs ys : List A) (i : ℕ) → i < length xs → get_elem? (xs ++ ys) i ≡ get_elem? xs i
  get_elem?-append [] ys i h = absurd (omega arith)
  get_elem?-append (x ∷ xs) ys zero h = refl
  get_elem?-append (x ∷ xs) ys (suc i) h = get_elem?-append xs ys i (omega arith)
