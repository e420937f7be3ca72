-- ===== src/Poller/Select/Table.antt =====
-- Which channels a `SelectPoller` polls (src/network/poller.cpp).
use order_engine.Prelude.{
  ℕ, ◌<◌, ◌≤◌, length, ◌+◌, ◌-◌, ◌≡◌, ◌∙◌, Bool, true, false, Bool-cases, inl, inr, none, some,
  List, [], ◌∷◌, ◌++◌, ◌==◌, if◌then◌else◌, lookup, nat_eq, lookup-insert, lookup-erase, arith,
}
use order_engine.Poller.{changed}
use order_engine.Poller.Select.{Heap, SelectPoller, update_channel, remove_channel, erase_first}

abbrev pub copies : ℕ → List ℕ → ℕ
copies a [] = 0
copies a (x ∷ rest) = if x == a then copies a rest + 1 else copies a rest

copies-append :
    (a : ℕ) (front back : List ℕ) → copies a (front ++ back) ≡ copies a back + copies a front
copies-append a [] back = omega arith
copies-append a (x ∷ rest) back = ground (arith, copies-append a rest back)

copies-erase_first :
    (a b : ℕ) (xs : List ℕ)
    → copies b (erase_first a xs) ≡ (if a == b then copies b xs - 1 else copies b xs)
unfolding erase_first
copies-erase_first a b [] = ground arith
copies-erase_first a b (x ∷ xs) = ground (arith, copies-erase_first a b xs)

length-erase_first :
    (a : ℕ) (xs : List ℕ) → 0 < copies a xs → length (erase_first a xs) + 1 ≡ length xs
unfolding erase_first
length-erase_first a [] found = absurd (omega arith)
length-erase_first a (x ∷ xs) found = elim (Bool-cases (x == a)) [
  | inl e ↦ rw e (omega arith)
  | inr e ↦ rw e (omega (arith, length-erase_first a xs (rw e at found)))
]

-- A list that has nothing more often than another is not longer.
pub length-copies : (xs ys : List ℕ) → ((a : ℕ) → copies a xs ≤ copies a ys) → length xs ≤ length ys
length-copies [] ys fewer = omega arith
length-copies (x ∷ xs) ys fewer =
    let here : 0 < copies x ys = ground (arith, fewer x) in
    let rest =
      length-copies xs (erase_first x ys)
        (λ a. ground (arith, fewer a, copies-erase_first x a ys)) in
    omega (arith, rest, length-erase_first x ys here)

-- Two channels have different descriptors.
abbrev pub IsDistinct : Heap → Type 0
IsDistinct h = (a b : ℕ) → (h a).fd ≡ (h b).fd → a ≡ b

-- The poller holds the set: once in the list, and under its descriptor in the table.
abbrev pub Holds : Heap → SelectPoller → (ℕ → Bool) → Type 0
Holds h p is_in =
    (a : ℕ)
    → (copies a p.polled_channels ≡ (if is_in a then 1 else 0))
      × (lookup (h a).fd p.channels ≡ (if is_in a then some a else none))

pub update_channel-Holds :
    (h : Heap) (b : ℕ) (p : SelectPoller) (is_in : ℕ → Bool)
    → IsDistinct h
    → Holds h p is_in
    → Holds h (update_channel h b p) (changed b true is_in)
unfolding update_channel
update_channel-Holds h b p is_in distinct holds a = elim (Bool-cases (is_in b)) [
  | inl old ↦ rw (rw old at (holds b).1) (ground (arith, old, holds a))
  | inr new ↦ rw (rw new at (holds b).1) (
    ground (arith, new, holds a, distinct b a, copies-append a p.polled_channels (b ∷ [])),
    lookup-insert (h b).fd (h a).fd b p.channels ∙ ground (arith, new, holds a, distinct b a),
  )
]

pub remove_channel-Holds :
    (h : Heap) (b : ℕ) (p : SelectPoller) (is_in : ℕ → Bool)
    → IsDistinct h
    → Holds h p is_in
    → Holds h (remove_channel h b p) (changed b false is_in)
unfolding remove_channel
remove_channel-Holds h b p is_in distinct holds a = elim (Bool-cases (is_in b)) [
  | inl old ↦ rw (rw old at (holds b).1) (
    ground (arith, old, holds a, holds b, copies-erase_first b a p.polled_channels),
    lookup-erase (h b).fd (h a).fd p.channels ∙ ground (arith, old, holds a, distinct b a),
  )
  | inr new ↦ rw (rw new at (holds b).1) (ground (arith, new, holds a))
]
