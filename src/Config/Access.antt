-- ===== src/Config/Access.antt =====
-- The getters and setters of `Config` (src/common/config.cpp): what a setter stores each getter
-- reads back, and no other key is touched.
use order_engine.Prelude.{
  Bool, true, false, some, [], Bytes, codes, lookup-insert, bytes_Eq, bytes_eq, bytes_eq_iff,
  if◌then◌else◌, ℤ, InInt, ◌≡◌, ◌≢◌, refl, arith, inl, inr, Bool-cases,
}
use order_engine.Text.Decimal.{to_string}
use order_engine.Text.Decimal.RoundTrip.{stoi-to_string, to_string-ne-nil}
use order_engine.Config.{
  Config, get_value, set_value, get_string, get_int, get_bool, get_double, set_string, set_int,
  set_double, set_bool, has_key, parse_bool, to_lower, Doubles,
}

-- One law for the map behind all the setters.
get_value-set_value :
    (c : Config) (k j v : Bytes)
    → get_value (set_value c k v) j ≡ (if bytes_eq k j then v else get_value c j)
unfolding get_value set_value
get_value-set_value c k j v =
    rw (lookup-insert k j v c.configs)
      (elim (Bool-cases (bytes_eq k j)) [ inl e ↦ rw e refl | inr e ↦ rw e refl ])

-- Every getter tests for the empty text first.
not-empty : (v : Bytes) → v ≢ [] → bytes_eq v [] ≡ false
not-empty v ne = ground (arith, bytes_eq_iff v [])

-- After `setInt(key, v)` with an `int` v, `getInt(key, d)` is v for every default d, and another key
-- is read as before; and so with the other setters.
get_int-set_int :
    (c : Config) (key j : Bytes) (v default : ℤ)
    → InInt v
    → get_int (set_int c key v) j default ≡ (if bytes_eq key j then v else get_int c j default)
unfolding get_int set_int
get_int-set_int c key j v default h = elim (Bool-cases (bytes_eq key j)) [
  | inl e ↦ rw (
    get_value-set_value c key j (to_string v),
    e,
    not-empty _ (to_string-ne-nil v),
    stoi-to_string v h,
  )
  | inr e ↦ rw (get_value-set_value c key j (to_string v), e)
]

get_bool-set_bool :
    (c : Config) (key j : Bytes) (b default : Bool)
    → get_bool (set_bool c key b) j default ≡ (if bytes_eq key j then b else get_bool c j default)
unfolding get_bool set_bool parse_bool to_lower bytes_eq
get_bool-set_bool c key j true default = elim (Bool-cases (bytes_eq key j)) [
  | inl e ↦ rw (get_value-set_value c key j (codes "true"), e)
  | inr e ↦ rw (get_value-set_value c key j (codes "true"), e)
]
get_bool-set_bool c key j false default = elim (Bool-cases (bytes_eq key j)) [
  | inl e ↦ rw (get_value-set_value c key j (codes "false"), e)
  | inr e ↦ rw (get_value-set_value c key j (codes "false"), e)
]

get_string-set_string :
    (c : Config) (key j v default : Bytes)
    → (get_string (set_string c key v) j default
        ≡ (if bytes_eq key j then if bytes_eq v [] then default else v else get_string c j default))
      × (has_key (set_string c key v) j ≡ (if bytes_eq key j then true else has_key c j))
unfolding get_string set_string has_key
get_string-set_string c key j v default = elim (Bool-cases (bytes_eq key j)) [
  | inl e ↦ (
    rw (get_value-set_value c key j v, e),
    unfold set_value in rw (lookup-insert key j v c.configs, e),
  )
  | inr e ↦ (
    rw (get_value-set_value c key j v, e),
    unfold set_value in rw (lookup-insert key j v c.configs, e),
  )
]

-- What a `double` prints as is not empty, and `stod` reads this `double` from it.
abbrev pub IsExact : (d : Doubles) → d.Double → Type 0
IsExact d x = (d.print x ≢ []) × (d.stod (d.print x) ≡ some x)

get_double-set_double :
    (d : Doubles) (c : Config) (key j : Bytes) (x default : d.Double)
    → IsExact d x
    → get_double d (set_double d c key x) j default
      ≡ (if bytes_eq key j then x else get_double d c j default)
unfolding get_double set_double
get_double-set_double d c key j x default (ne, exact) = elim (Bool-cases (bytes_eq key j)) [
  | inl e ↦ rw (get_value-set_value c key j (d.print x), e, not-empty _ ne, exact)
  | inr e ↦ rw (get_value-set_value c key j (d.print x), e)
]

-- What a setter stores under a key, the getter of its type reads back, whatever the default: a
-- text, or the default where it is empty; an `int`; a truth value; and a `double` that `stod` reads
-- from what it prints as. The key is there afterwards, also with the empty text. Every other key
-- is read as before.
pub get-set :
    (d : Doubles) (c : Config) (key j text other : Bytes) (v w : ℤ) (b a : Bool) (x y : d.Double)
    → InInt v
    → IsExact d x
    → (get_string (set_string c key text) j other ≡ (
        if bytes_eq key j then if bytes_eq text [] then other else text else get_string c j other))
      × (has_key (set_string c key text) j ≡ (if bytes_eq key j then true else has_key c j))
      × (get_int (set_int c key v) j w ≡ (if bytes_eq key j then v else get_int c j w))
      × (get_bool (set_bool c key b) j a ≡ (if bytes_eq key j then b else get_bool c j a))
      × (get_double d (set_double d c key x) j y
          ≡ (if bytes_eq key j then x else get_double d c j y))
get-set d c key j text other v w b a x y fits exact =
    let (read, there) = get_string-set_string c key j text other in
    (
      read,
      there,
      get_int-set_int c key j v w fits,
      get_bool-set_bool c key j b a,
      get_double-set_double d c key j x y exact,
    )
