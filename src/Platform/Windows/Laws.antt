-- ===== src/Platform/Windows/Laws.antt =====
-- The interface's laws for Windows (src/network/poller.cpp, src/network/channel.cpp).
use order_engine.Prelude.{
  ℕ, ◌≤◌, length, subst, ◌+◌, ◌≡◌, refl, ap, ◌∙◌, sym, Bool, true, false, not, ◌&&◌, ◌||◌,
  Bool-cases, inl, inr, none, some, List, [], ◌∷◌, ◌==◌, ==_iff, if◌then◌else◌, arith, lookup,
  nat_eq,
}
use order_engine.Channel.{Channel, Change}
use order_engine.Platform.{IsPlatform, Wants, no_wants, is_idle, after_change}
use order_engine.Registry.Invariant.{map-changed}
use order_engine.Platform.Windows.{
  World, change_mask, with_mask, reactor_update_channel, reactor_remove_channel, change_channel,
  remove, windows, fresh,
}
use order_engine.Platform.Windows.Masks.{
  mask, change_mask-mask, reading-mask, none-idle, idle-no_wants,
}
use order_engine.Poller.{changed}
use order_engine.Poller.Select.{
  Heap, is_set, fd_setsize, is_reading, is_writing, update_channel, remove_channel, no_fds,
}
use order_engine.Poller.Select.Table.{
  IsDistinct, Holds, copies, length-copies, update_channel-Holds, remove_channel-Holds,
}
use order_engine.Poller.Select.Sets.{asks, fill_sets-read_all, fill_sets-write_all}

-- A channel is asked for if it is in the list.
asks-copies :
    (test : Channel → Bool) (h : Heap) (xs : List ℕ) (a : ℕ)
    → IsDistinct h
    → asks test h xs (h a).fd ≡ not (copies a xs == 0) && test (h a)
asks-copies test h [] a distinct = refl
asks-copies test h (b ∷ xs) a distinct = elim (Bool-cases (b == a)) [
  | inl e ↦
      let is_a = (==_iff b a).0 e in
      ground (
        arith,
        e,
        ap (λ x. test (h x)) is_a,
        ap (λ x. (h x).fd) is_a,
        asks-copies test h xs a distinct,
      )
  | inr e ↦ ground (arith, e, distinct b a, asks-copies test h xs a distinct)
]

-- All channels are the reactor's, with descriptors of their own; `wanted` is what their masks say,
-- and the poller has those for which `is_in` holds, at least all that want something, and only some
-- of the list.
pub record Ready (channels : List ℕ) (w : World) : Type 0 where
  pub distinct : IsDistinct w.chan
  pub owners : (a : ℕ) → (w.chan a).owner ≡ w.reactor
  wanted : ℕ → Wants
  pub events : (a : ℕ) → (w.chan a).events ≡ mask (wanted a)
  pub is_in : ℕ → Bool
  pub holds : Holds w.chan w.poller is_in
  within : (a : ℕ) → is_in a ≡ true → is_set a channels ≡ true
  pub out : (a : ℕ) → is_in a ≡ false → wanted a ≡ no_wants

or_false : (b : Bool) → (b || false) ≡ b
or_false true = refl
or_false false = refl

present : (b : Bool) → not ((if b then 1 else 0) == 0) ≡ b
present true = refl
present false = refl

copies-is_set : (a : ℕ) (xs : List ℕ) → is_set a xs ≡ true → 1 ≤ copies a xs
copies-is_set a [] e = absurd (cc)
copies-is_set a (x ∷ xs) e = ground (arith, e, copies-is_set a xs)

module _ (channels : List ℕ) (room : length channels ≤ fd_setsize) where
  polled-fits : (w : World) → Ready channels w → length w.poller.polled_channels ≤ length channels
  polled-fits w r = length-copies w.poller.polled_channels channels (λ a.
      let each = (r.holds a).0 in
      elim (Bool-cases (r.is_in a)) [
        | inl e ↦
            let one : copies a w.poller.polled_channels ≡ 1 = each ∙ rw e refl in
            omega (arith, one, copies-is_set a channels (r.within a e))
        | inr e ↦
            let nothing : copies a w.poller.polled_channels ≡ 0 = each ∙ rw e refl in
            omega (arith, nothing)
      ])

  -- The sets have what is wanted of the channels that the poller has.
  wants-eq :
      (w : World) (r : Ready channels w) (a : ℕ)
      → windows.wants w a ≡ record {
        reads = r.is_in a && (r.wanted a).reads;
        writes = r.is_in a && (r.wanted a).writes;
      }
  wants-eq w r a =
      let c = w.chan a in
      let polled = w.poller.polled_channels in
      let fits : 0 + length polled ≤ fd_setsize = omega (arith, polled-fits w r, room) in
      let (reads, writes) = reading-mask c (r.wanted a) (r.events a) in
      rw
        (
          fill_sets-read_all w.chan polled no_fds c.fd fits,
          fill_sets-write_all w.chan polled no_fds c.fd fits,
          asks-copies is_reading w.chan polled a r.distinct,
          asks-copies is_writing w.chan polled a r.distinct,
          (r.holds a).0,
          present (r.is_in a),
          reads,
          writes,
          or_false (r.is_in a && (r.wanted a).reads),
          or_false (r.is_in a && (r.wanted a).writes),
        )
        refl

  wants-wanted : (w : World) (r : Ready channels w) (a : ℕ) → windows.wants w a ≡ r.wanted a
  wants-wanted w r a =
      wants-eq w r a
      ∙ elim (Bool-cases (r.is_in a)) [ inl e ↦ rw e refl | inr e ↦ rw (e, r.out a e) refl ]

  change-wants :
      (m : Change) (w w' : World) (a : ℕ) (r : Ready channels w) (r' : Ready channels w')
      → r'.wanted ≡ changed a (after_change m (r.wanted a)) r.wanted
      → (j : ℕ)
      → windows.wants w' j ≡ changed a (after_change m (windows.wants w a)) (windows.wants w) j
  change-wants m w w' a r r' e j =
      wants-wanted w' r' j ∙ ap (λ f. f j) e ∙ elim (Bool-cases (a == j)) [
        | inl here ↦ rw here (ap (after_change m) (sym (wants-wanted w r a)))
        | inr there ↦ rw there (sym (wants-wanted w r j))
      ]

  change_channel-Ready :
      (m : Change) (w : World) (a : ℕ)
      → Ready channels w
      → is_set a channels ≡ true
      → (w' : World) × (change_channel m true w a ≡ some w')
        × Ready channels w'
        × ((j : ℕ)
            → windows.wants w' j
              ≡ changed a (after_change m (windows.wants w a)) (windows.wants w) j)
  unfolding change_channel reactor_update_channel
  change_channel-Ready m w a r known =
      let v = with_mask m w a in
      let w' : World = record v { poller = update_channel v.chan a v.poller } in
      let same : (b : ℕ) → (v.chan b).fd ≡ (w.chan b).fd =
        λ b. map-changed (λ (c : Channel). c.fd) a b _ w.chan refl in
      let owner : (b : ℕ) → (v.chan b).owner ≡ (w.chan b).owner =
        λ b. map-changed (λ (c : Channel). c.owner) a b _ w.chan refl in
      let distinct : IsDistinct v.chan = λ b c e. r.distinct b c (sym (same b) ∙ e ∙ same c) in
      let wanted = changed a (after_change m (r.wanted a)) r.wanted in
      let ready : Ready channels w' = record {
        distinct = distinct;
        owners = λ b. owner b ∙ r.owners b;
        wanted = wanted;
        events = λ b. elim (Bool-cases (a == b)) [
          | inl here ↦ rw here (
              ap (change_mask m) (r.events a)
              ∙ change_mask-mask m (r.wanted a).reads (r.wanted a).writes)
          | inr there ↦ rw there (r.events b)
        ];
        is_in = changed a true r.is_in;
        within = λ b e. elim (Bool-cases (a == b)) [
          | inl here ↦ subst (λ i. is_set i channels ≡ true) ((==_iff a b).0 here) known
          | inr there ↦ r.within b (rw there at e)
        ];
        holds =
            update_channel-Holds v.chan a v.poller r.is_in distinct (λ b. rw (same b) (r.holds b));
        out = λ b e. elim (Bool-cases (a == b)) [
          | inl here ↦ absurd (cc (rw here at e))
          | inr there ↦ rw there (r.out b (rw there at e))
        ];
      } in
      (
        w',
        rw (owner a ∙ r.owners a, (==_iff w.reactor w.reactor).1 refl) refl,
        ready,
        change-wants m w w' a r ready refl,
      )

  remove_idle :
      (w : World) (a : ℕ)
      → Ready channels w
      → is_idle (windows.wants w a) ≡ true
      → (w' : World) × (remove true w a ≡ some w')
        × Ready channels w'
        × ((j : ℕ) → windows.wants w' j ≡ windows.wants w j)
  unfolding remove reactor_remove_channel
  remove_idle w a r idle =
      let w' : World = record w { poller = remove_channel w.chan a w.poller } in
      let nothing : is_idle (r.wanted a) ≡ true = ap is_idle (sym (wants-wanted w r a)) ∙ idle in
      let ready : Ready channels w' = record {
        distinct = r.distinct;
        owners = r.owners;
        wanted = r.wanted;
        events = r.events;
        is_in = changed a false r.is_in;
        within = λ b e. elim (Bool-cases (a == b)) [
          | inl here ↦ absurd (cc (rw here at e))
          | inr there ↦ r.within b (rw there at e)
        ];
        holds = remove_channel-Holds w.chan a w.poller r.is_in r.distinct r.holds;
        out = λ b e. elim (Bool-cases (a == b)) [
          | inl here ↦ ap r.wanted (sym ((==_iff a b).0 here)) ∙ idle-no_wants (r.wanted a) nothing
          | inr there ↦ r.out b (rw there at e)
        ];
      } in
      (
        w',
        rw
            (
              none-idle (w.chan a) (r.wanted a) (r.events a) ∙ nothing,
              r.owners a,
              (==_iff w.reactor w.reactor).1 refl,
            )
            refl,
        ready,
        λ j. wants-wanted w' ready j ∙ sym (wants-wanted w r j),
      )

  remove_busy :
      (w : World) (a : ℕ)
      → Ready channels w
      → is_idle (windows.wants w a) ≡ false
      → remove true w a ≡ none
  unfolding remove
  remove_busy w a r busy =
      rw
        (none-idle (w.chan a) (r.wanted a) (r.events a)
          ∙ ap is_idle (sym (wants-wanted w r a))
          ∙ busy)
        refl

  pub windows-IsPlatform : IsPlatform windows (Ready channels) channels
  windows-IsPlatform = record {
    change_channel_lem = change_channel-Ready;
    remove_idle = remove_idle;
    remove_busy = remove_busy;
  }

pub fresh-Ready :
    (channels : List ℕ) (reactor : ℕ) (fd : ℕ → ℕ)
    → ((a b : ℕ) → fd a ≡ fd b → a ≡ b)
    → Ready channels (fresh reactor fd)
unfolding fresh
fresh-Ready channels reactor fd distinct = record {
  distinct = distinct;
  owners = λ a. refl;
  wanted = λ a. no_wants;
  events = λ a. refl;
  is_in = λ a. false;
  within = λ a e. absurd (cc);
  holds = λ a. (refl, unfold lookup in refl);
  out = λ a e. refl;
}
