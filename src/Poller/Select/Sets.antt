-- ===== src/Poller/Select/Sets.antt =====
-- What the sets of `SelectPoller::poll` have (src/network/poller.cpp), with the bound of `FD_SET`.
use order_engine.Prelude.{
  ℕ, ◌+◌, ◌<◌, ◌≤◌, ◌≡◌, refl, ◌∙◌, Bool, true, false, ◌&&◌, ◌||◌, Bool-cases, inl, inr, List, [],
  ◌∷◌, ◌==◌, ==_iff, arith, length, subst,
}
use order_engine.Channel.{Channel}
use order_engine.Poller.Select.{
  Heap, FdSets, is_set, fd_set, fd_setsize, add_if, fill_sets, is_reading, is_writing,
}

-- Some channel of the list has the descriptor and passes the test.
abbrev pub asks : (Channel → Bool) → Heap → List ℕ → ℕ → Bool
asks test h [] j = false
asks test h (a ∷ rest) j = ((h a).fd == j && test (h a)) || asks test h rest j

add_if-within :
    (b : Bool) (fd j : ℕ) (set : List ℕ)
    → is_set j (add_if b fd set) ≡ true
    → ((fd == j && b) || is_set j set) ≡ true
unfolding fd_set
add_if-within true fd j set e = ground (arith, e)
add_if-within false fd j set e = ground (arith, e)

-- A descriptor is added where there is room.
add_if-below :
    (b : Bool) (fd j : ℕ) (set : List ℕ)
    → length set < fd_setsize
    → (is_set j (add_if b fd set) ≡ (fd == j && b) || is_set j set)
      × (length (add_if b fd set) ≤ length set + 1)
unfolding fd_set
add_if-below true fd j set less = elim (Bool-cases (is_set fd set)) [
  | inl has_it ↦ rw has_it (elim (Bool-cases (fd == j)) [
    | inl e ↦ (rw e (subst (λ i. is_set i set ≡ true) ((==_iff fd j).0 e) has_it), omega arith)
    | inr e ↦ (rw e refl, omega arith)
  ])
  | inr new ↦ ground (arith, new, less)
]
add_if-below false fd j set less = ground (arith, less)

pub fill_sets-read :
    (h : Heap) (xs : List ℕ) (s : FdSets) (j : ℕ)
    → is_set j (fill_sets h xs s).read ≡ true
    → (asks is_reading h xs j || is_set j s.read) ≡ true
unfolding fill_sets
fill_sets-read h [] s j e = e
fill_sets-read h (a ∷ xs) s j e =
    ground (arith, fill_sets-read h xs _ j e, add_if-within (is_reading (h a)) (h a).fd j s.read)

pub fill_sets-write :
    (h : Heap) (xs : List ℕ) (s : FdSets) (j : ℕ)
    → is_set j (fill_sets h xs s).write ≡ true
    → (asks is_writing h xs j || is_set j s.write) ≡ true
unfolding fill_sets
fill_sets-write h [] s j e = e
fill_sets-write h (a ∷ xs) s j e =
    ground (arith, fill_sets-write h xs _ j e, add_if-within (is_writing (h a)) (h a).fd j s.write)

-- With no more than `FD_SETSIZE` channels, none is left out.
pub fill_sets-read_all :
    (h : Heap) (xs : List ℕ) (s : FdSets) (j : ℕ)
    → length s.read + length xs ≤ fd_setsize
    → is_set j (fill_sets h xs s).read ≡ asks is_reading h xs j || is_set j s.read
unfolding fill_sets
fill_sets-read_all h [] s j room = refl
fill_sets-read_all h (a ∷ xs) s j room =
    let (has_it, size) = add_if-below (is_reading (h a)) (h a).fd j s.read (omega arith) in
    fill_sets-read_all h xs _ j (omega (arith, size)) ∙ ground (arith, has_it)

pub fill_sets-write_all :
    (h : Heap) (xs : List ℕ) (s : FdSets) (j : ℕ)
    → length s.write + length xs ≤ fd_setsize
    → is_set j (fill_sets h xs s).write ≡ asks is_writing h xs j || is_set j s.write
unfolding fill_sets
fill_sets-write_all h [] s j room = refl
fill_sets-write_all h (a ∷ xs) s j room =
    let (has_it, size) = add_if-below (is_writing (h a)) (h a).fd j s.write (omega arith) in
    fill_sets-write_all h xs _ j (omega (arith, size)) ∙ ground (arith, has_it)
