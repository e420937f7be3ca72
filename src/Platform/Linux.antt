-- ===== src/Platform/Linux.antt =====
-- `EpollPoller` behind the interface (src/network/poller.cpp, src/network/reactor.cpp).
use order_engine.Prelude.{
  ℕ, true, false, Option, none, some, List, ◌≡◌, refl, ap, ◌∙◌, sym, ◌==◌, ==_iff, ◌⊎◌, inl, inr,
  Bool-cases,
}
use order_engine.Channel.{
  Channel, Change, Index, new, added, deleted, change_events, has, read_event, write_event,
  is_reading, is_writing, is_none_event,
}
use order_engine.Channel.Masks.{change_events-reads_writes, is_none_event-eq}
use order_engine.Platform.{Platform, IsPlatform, Wants, no_wants, is_idle, after_change}
use order_engine.Poller.{
  Epoll, IsEpoll, Event, Poller, changed, event_of, update_channel, update_channel_at,
  remove_channel,
}
use order_engine.Poller.Select.{is_set}
use order_engine.Poller.Watch.{watched, update_channel-same}
use order_engine.Registry.Watched.{fresh-Inv}
use order_engine.Registry.{
  fresh, World, store, change_channel, remove, reactor_remove_channel, call, removes,
}
use order_engine.Registry.Invariant.{Inv, change_channel-eq, change_channel-Inv, call-Inv}

abbrev pub asked : Option Event → Wants
asked none = no_wants
asked (some e) = record { reads = has e.events read_event; writes = has e.events write_event }

abbrev pub linux : Epoll → Platform
linux E = record {
  State = World E;
  change_channel = λ m w i. change_channel m true w i;
  remove = λ w i. remove true w i;
  wants = λ w i. asked (E.interest w.poller.kernel (w.chan i).fd);
}

abbrev bits : Channel → Wants
bits c = record { reads = is_reading c; writes = is_writing c }

-- Registered, or with no interest.
abbrev IsKept : Channel → Type 0
IsKept c = (c.index ≡ added) ⊎ (c.events ≡ 0)

update_channel_at-IsKept :
    {E : Epoll} (x : Index) (p : Poller E) (c : Channel)
    → c.index ≡ x
    → IsKept (update_channel_at x p c).1
unfolding update_channel_at is_none_event
update_channel_at-IsKept new p c e = inl refl
update_channel_at-IsKept deleted p c e = inl refl
update_channel_at-IsKept added p c e = elim (Bool-cases (c.events == 0)) [
  | inl quiet ↦ rw quiet (inr ((==_iff c.events 0).0 quiet))
  | inr busy ↦ rw busy (inl e)
]

module _ {E : Epoll} (laws : IsEpoll E) where
  -- All channels are the reactor's, and the poller agrees with them.
  pub record Ready (w : World E) : Type 0 where
    pub inv : Inv laws w
    pub owners : (i : ℕ) → (w.chan i).owner ≡ w.reactor
    pub kept : (i : ℕ) → IsKept (w.chan i)

  asked-watched : (c : Channel) → IsKept c → asked (watched c.index (event_of c)) ≡ bits c
  unfolding is_reading is_writing
  asked-watched c (inl e) = rw e refl
  asked-watched c (inr e) = at_index c.index
    where
      at_index : (x : Index) → asked (watched x (event_of c)) ≡ bits c
      at_index new = rw e refl
      at_index deleted = rw e refl
      at_index added = refl

  wants-bits : (w : World E) (j : ℕ) → Ready w → (linux E).wants w j ≡ bits (w.chan j)
  wants-bits w j r = ap asked (r.inv.holds j).watches ∙ asked-watched (w.chan j) (r.kept j)

  -- What a change leaves wanted.
  bits-update_channel :
      (m : Change) (p : Poller E) (c : Channel)
      → bits (update_channel p (change_events m c)).1 ≡ bits (change_events m c)
  unfolding is_reading is_writing
  bits-update_channel m p c = rw (update_channel-same laws p (change_events m c)) refl

  bits-change_events :
      (m : Change) (w : World E) (i : ℕ)
      → Ready w
      → bits (change_events m (w.chan i)) ≡ after_change m (bits (w.chan i))
  bits-change_events m w i r =
      let (reads, writes) = change_events-reads_writes m (w.chan i) (r.inv.masks i) in
      rw (reads, writes) refl

  change-wants :
      (m : Change) (w w' : World E) (i j : ℕ)
      → Ready w
      → Ready w'
      → w'.chan ≡ changed i (update_channel w.poller (change_events m (w.chan i))).1 w.chan
      → (linux E).wants w' j
        ≡ changed i (after_change m ((linux E).wants w i)) ((linux E).wants w) j
  change-wants m w w' i j r r' e =
      wants-bits w' j r' ∙ ap (λ f. bits (f j)) e ∙ elim (Bool-cases (i == j)) [
        | inl here ↦ rw here (
            bits-update_channel m w.poller (w.chan i)
            ∙ bits-change_events m w i r
            ∙ ap (after_change m) (sym (wants-bits w i r)))
        | inr there ↦ rw there (sym (wants-bits w j r))
      ]

  change_channel-Ready :
      (channels : List ℕ) (m : Change) (w : World E) (i : ℕ)
      → Ready w
      → is_set i channels ≡ true
      → (w' : World E) × (change_channel m true w i ≡ some w')
        × Ready w'
        × ((j : ℕ)
            → (linux E).wants w' j
              ≡ changed i (after_change m ((linux E).wants w i)) ((linux E).wants w) j)
  unfolding change_events update_channel
  change_channel-Ready channels m w i r known =
      let c = change_events m (w.chan i) in
      let w' = store w i (update_channel w.poller c) in
      let done : change_channel m true w i ≡ some w' =
        change_channel-eq m true w i ∙ rw (r.owners i, (==_iff w.reactor w.reactor).1 refl) refl in
      let ready : Ready w' = record {
        inv = change_channel-Inv laws m true w w' i r.inv done;
        owners = λ j. elim (Bool-cases (i == j)) [
          | inl e ↦ rw (e, update_channel-same laws w.poller c) (r.owners i)
          | inr e ↦ rw e (r.owners j)
        ];
        kept = λ j. elim (Bool-cases (i == j)) [
          | inl e ↦ rw e (update_channel_at-IsKept c.index w.poller c refl)
          | inr e ↦ rw e (r.kept j)
        ];
      } in
      (w', done, ready, λ j. change-wants m w w' i j r ready refl)

  none-idle :
      (w : World E) (i : ℕ) → Ready w → is_none_event (w.chan i) ≡ is_idle ((linux E).wants w i)
  none-idle w i r =
      is_none_event-eq (w.chan i) (r.inv.masks i) ∙ ap is_idle (sym (wants-bits w i r))

  remove_idle :
      (w : World E) (i : ℕ)
      → Ready w
      → is_idle ((linux E).wants w i) ≡ true
      → (w' : World E) × (remove true w i ≡ some w')
        × Ready w'
        × ((j : ℕ) → (linux E).wants w' j ≡ (linux E).wants w j)
  unfolding remove reactor_remove_channel remove_channel is_reading is_writing is_none_event
  remove_idle w i r idle =
      let quiet : is_none_event (w.chan i) ≡ true = none-idle w i r ∙ idle in
      let w' = store w i (remove_channel w.poller (w.chan i)) in
      let done : remove true w i ≡ some w' =
        rw (quiet, r.owners i, (==_iff w.reactor w.reactor).1 refl) refl in
      let ready : Ready w' = record {
        inv = call-Inv laws removes true w w' i r.inv (unfold call in done);
        owners = λ j. elim (Bool-cases (i == j)) [
          | inl e ↦ rw e (r.owners i)
          | inr e ↦ rw e (r.owners j)
        ];
        kept = λ j. elim (Bool-cases (i == j)) [
          | inl e ↦ rw e (inr ((==_iff (w.chan i).events 0).0 quiet))
          | inr e ↦ rw e (r.kept j)
        ];
      } in
      let same : (j : ℕ) → bits (w'.chan j) ≡ bits (w.chan j) = λ j. elim (Bool-cases (i == j)) [
        | inl e ↦ rw e (ap (λ k. bits (w.chan k)) ((==_iff i j).0 e))
        | inr e ↦ rw e refl
      ] in
      (w', done, ready, λ j. wants-bits w' j ready ∙ same j ∙ sym (wants-bits w j r))

  remove_busy :
      (w : World E) (i : ℕ)
      → Ready w
      → is_idle ((linux E).wants w i) ≡ false
      → remove true w i ≡ none
  unfolding remove
  remove_busy w i r busy = rw (none-idle w i r ∙ busy) refl

  pub linux-IsPlatform : (channels : List ℕ) → IsPlatform (linux E) Ready channels
  linux-IsPlatform channels = record {
    change_channel_lem = change_channel-Ready channels;
    remove_idle = remove_idle;
    remove_busy = remove_busy;
  }

  pub fresh-Ready :
      (k : E.Kernel) (reactor : ℕ) (address fd : ℕ → ℕ)
      → ((j : ℕ) → E.interest k j ≡ none)
      → ((i j : ℕ) → fd i ≡ fd j → i ≡ j)
      → Ready (fresh k reactor address fd)
  unfolding fresh
  fresh-Ready k reactor address fd idle distinct = record {
    inv = fresh-Inv laws k reactor address fd idle distinct;
    owners = λ i. refl;
    kept = λ i. inr refl;
  }
