-- ===== src/Poller/Select/Ready.antt =====
-- What `SelectPoller::poll` reports (src/network/poller.cpp).
use Prim.Native.Nat.{bit_or}
use order_engine.Prelude.{
  ℕ, ◌≡◌, ◌≢◌, refl, ap, sym, ◌∙◌, subst, Bool, true, false, not, ◌&&◌, ◌||◌, Bool-cases, inl, inr,
  List, [], ◌∷◌, ◌++◌, ◌==◌, ==_iff, append_assoc, append-nil, if◌then◌else◌, arith,
}
use order_engine.Channel.{Channel, has}
use order_engine.Poller.{changed}
use order_engine.Poller.Select.{
  Heap, Selected, ready, SelectPoller, read_event, write_event, is_reading, is_writing, FdSets,
  is_set, fill_sets, no_fds, flag, revents_of, collect, poll, poll_list,
}
use order_engine.Poller.Select.Table.{IsDistinct}
use order_engine.Poller.Select.Sets.{asks, fill_sets-read, fill_sets-write}

asked_by :
    (test : Channel → Bool) (h : Heap) (xs : List ℕ) (a : ℕ)
    → IsDistinct h
    → asks test h xs (h a).fd ≡ true
    → test (h a) ≡ true
asked_by test h [] a distinct e = absurd (cc)
asked_by test h (b ∷ xs) a distinct e = elim (Bool-cases ((h b).fd == (h a).fd)) [
  | inl same ↦
      let is_a : b ≡ a = distinct b a ((==_iff (h b).fd (h a).fd).0 same) in
      ground (arith, same, e, ap (λ x. test (h x)) is_a, asked_by test h xs a distinct)
  | inr other ↦ asked_by test h xs a distinct (rw other at e)
]

-- The channels of the list for which the sets have an event.
abbrev pub with_events : FdSets → Heap → List ℕ → List ℕ
with_events s h [] = []
with_events s h (a ∷ rest) =
    if revents_of s (h a).fd == 0 then with_events s h rest else a ∷ with_events s h rest

abbrev pub member : ℕ → List ℕ → Bool
member a [] = false
member a (x ∷ xs) = x == a || member a xs

-- A channel with the events of its descriptor, if there are any.
abbrev pub reported : FdSets → Bool → Channel → Channel
reported s polled c =
    if polled && not (revents_of s c.fd == 0) then record c { revents = revents_of s c.fd } else c

-- `setRevents` of the channel `x`.
abbrev marked : FdSets → ℕ → Heap → Heap
marked s x h = changed x (record (h x) { revents = revents_of s (h x).fd }) h

marked-fd : (s : FdSets) (x : ℕ) (h : Heap) (a : ℕ) → (marked s x h a).fd ≡ (h a).fd
marked-fd s x h a = elim (Bool-cases (x == a)) [
  | inl e ↦ rw e (ap (λ b. (h b).fd) ((==_iff x a).0 e))
  | inr e ↦ rw e refl
]

with_events-marked :
    (s : FdSets) (x : ℕ) (h : Heap) (xs : List ℕ)
    → with_events s (marked s x h) xs ≡ with_events s h xs
with_events-marked s x h [] = refl
with_events-marked s x h (y ∷ xs) =
    ground (arith, ap (λ j. revents_of s j) (marked-fd s x h y), with_events-marked s x h xs)

reported-marked :
    (s : FdSets) (x a : ℕ) (h : Heap) (m : Bool)
    → (revents_of s (h x).fd == 0) ≡ false
    → reported s m (marked s x h a) ≡ reported s (x == a || m) (h a)
reported-marked s x a h m some_event = elim (Bool-cases (x == a)) [
  | inl e ↦
      subst (λ b. reported s m (marked s x h b) ≡ reported s (x == b || m) (h b)) ((==_iff x a).0 e)
        (ground (arith, some_event))
  | inr e ↦ rw e refl
]

reported_nothing :
    (s : FdSets) (x a : ℕ) (h : Heap) (m : Bool)
    → (revents_of s (h x).fd == 0) ≡ true
    → reported s m (h a) ≡ reported s (x == a || m) (h a)
reported_nothing s x a h m no_event = elim (Bool-cases (x == a)) [
  | inl e ↦
      subst (λ b. reported s m (h b) ≡ reported s (x == b || m) (h b)) ((==_iff x a).0 e)
        (ground (arith, no_event))
  | inr e ↦ rw e refl
]

collect_lem :
    (s : FdSets) (xs : List ℕ) (h : Heap) (active : List ℕ)
    → ((collect s xs h active).1 ≡ active ++ with_events s h xs)
      × ((a : ℕ) → (collect s xs h active).0 a ≡ reported s (member a xs) (h a))
unfolding collect
collect_lem s [] h active = (sym (append-nil active), λ a. refl)
collect_lem s (x ∷ xs) h active =
    let Goal : Bool → Type 0 = λ b.
      let r =
        collect s xs (if b then h else marked s x h) (if b then active else active ++ x ∷ []) in
      (r.1 ≡ active ++ (if b then with_events s h xs else x ∷ with_events s h xs))
      × ((a : ℕ) → r.0 a ≡ reported s (x == a || member a xs) (h a)) in
    elim (Bool-cases (revents_of s (h x).fd == 0)) [
      | inl no_event ↦
          let (list, each) = collect_lem s xs h active in
          subst Goal (sym no_event)
            (list, λ a. each a ∙ reported_nothing s x a h (member a xs) no_event)
      | inr some_event ↦
          let (list, each) = collect_lem s xs (marked s x h) (active ++ x ∷ []) in
          subst Goal (sym some_event) (
            list
                ∙ append_assoc active (x ∷ []) (with_events s (marked s x h) xs)
                ∙ ap (λ l. active ++ x ∷ l) (with_events-marked s x h xs),
            λ a. each a ∙ reported-marked s x a h (member a xs) some_event,
          )
    ]

has-read : (r w e : Bool) → has (bit_or (bit_or (flag r 1) (flag w 2)) (flag e 4)) 1 ≡ r
has-read true true true = refl
has-read true true false = refl
has-read true false true = refl
has-read true false false = refl
has-read false true true = refl
has-read false true false = refl
has-read false false true = refl
has-read false false false = refl

has-write : (r w e : Bool) → has (bit_or (bit_or (flag r 1) (flag w 2)) (flag e 4)) 2 ≡ w
has-write true true true = refl
has-write true true false = refl
has-write true false true = refl
has-write true false false = refl
has-write false true true = refl
has-write false true false = refl
has-write false false true = refl
has-write false false false = refl

revents_of-read : (s : FdSets) (j : ℕ) → has (revents_of s j) read_event ≡ is_set j s.read
unfolding revents_of
revents_of-read s j = has-read (is_set j s.read) (is_set j s.write) (is_set j s.except)

revents_of-write : (s : FdSets) (j : ℕ) → has (revents_of s j) write_event ≡ is_set j s.write
unfolding revents_of
revents_of-write s j = has-write (is_set j s.read) (is_set j s.write) (is_set j s.except)

or_false : (b : Bool) → (b || false) ≡ true → b ≡ true
or_false true h = refl
or_false false h = h

-- What select documents: the sets that it leaves are contained in those that it is given.
abbrev pub IsSelection : (FdSets → Selected) → Type 0
IsSelection select =
    (asked left : FdSets)
    → select asked ≡ ready left
    → (j : ℕ)
    → (is_set j left.read ≡ true → is_set j asked.read ≡ true)
      × (is_set j left.write ≡ true → is_set j asked.write ≡ true)

-- Where `select` leaves sets for the channels that are polled, which have different descriptors:
-- those with an event are appended to the active ones in their order, each of them has its events
-- and every other channel is unchanged; and reading or writing is reported only of a channel that
-- wants it.
pub poll-ready :
    (select : FdSets → Selected) (p : SelectPoller) (h : Heap) (active : List ℕ) (left : FdSets)
    → IsSelection select
    → IsDistinct h
    → p.polled_channels ≢ []
    → select (fill_sets h p.polled_channels no_fds) ≡ ready left
    → let (h', active') = poll select p h active in
      (active' ≡ active ++ with_events left h p.polled_channels)
      × ((a : ℕ) → h' a ≡ reported left (member a p.polled_channels) (h a))
      × ((a : ℕ)
          → (has (revents_of left (h a).fd) read_event ≡ true → is_reading (h a) ≡ true)
            × (has (revents_of left (h a).fd) write_event ≡ true → is_writing (h a) ≡ true))
unfolding poll
poll-ready select p h active left law distinct some_polled e = cases p.polled_channels some_polled e
  where
    cases :
        (xs : List ℕ)
        → xs ≢ []
        → select (fill_sets h xs no_fds) ≡ ready left
        → let (h', active') = poll_list select xs h active in
          (active' ≡ active ++ with_events left h xs)
          × ((a : ℕ) → h' a ≡ reported left (member a xs) (h a))
          × ((a : ℕ)
              → (has (revents_of left (h a).fd) read_event ≡ true → is_reading (h a) ≡ true)
                × (has (revents_of left (h a).fd) write_event ≡ true → is_writing (h a) ≡ true))
    cases [] some_polled e = absurd (some_polled refl)
    cases (x ∷ xs) some_polled e =
        let (list, each) = collect_lem left (x ∷ xs) h active in
        let given = law (fill_sets h (x ∷ xs) no_fds) left e in
        rw e (
          list,
          each,
          λ a. (
            λ r. asked_by is_reading h (x ∷ xs) a distinct (
                or_false _ (
                  fill_sets-read h (x ∷ xs) no_fds (h a).fd
                    ((given (h a).fd).0 (sym (revents_of-read left (h a).fd) ∙ r)))),
            λ r. asked_by is_writing h (x ∷ xs) a distinct (
                or_false _ (
                  fill_sets-write h (x ∷ xs) no_fds (h a).fd
                    ((given (h a).fd).1 (sym (revents_of-write left (h a).fd) ∙ r)))),
          ),
        )
