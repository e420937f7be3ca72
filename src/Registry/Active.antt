-- ===== src/Registry/Active.antt =====
-- Which channels a round of the loop can dispatch: the poller's `poll` after any use of the
-- reactor's channels. (src/network/channel.cpp, src/network/reactor.cpp, src/network/poller.cpp)
use order_engine.Prelude.{
  ℕ, Bool, true, false, none, some, List, [], ◌∷◌, ◌≡◌, ◌≢◌, refl, ap, sym, ◌∙◌, subst, inl, inr,
  ◌==◌, ==_iff, All, All-map, Bool-cases, arith, nat_eq, >>=-eq-some,
}
use order_engine.Channel.{
  Channel, Index, added, read_event, write_event, has, is_reading, is_writing, change_events,
  is_none_event,
}
use order_engine.Poller.{Epoll, IsEpoll, Event, event_of, Poller, update_channel, remove_channel}
use order_engine.Poller.Poll.{Heap, ready, poll, named, fill-active}
use order_engine.Poller.Watch.{
  watched, update_channel-same, update_channel-interest, remove_channel-interest,
  remove_channel-Holds,
}
use order_engine.Registry.{
  World, store, owned, reactor_remove_channel, remove, Call, changes, removes, call, run, fresh,
}
use order_engine.Registry.Invariant.{
  Inv, call-Inv, run-Inv, change_channel-eq, some_if, map-changed,
}
use order_engine.Registry.Watched.{fresh-Inv}

-- What epoll_wait(2) documents: each event is one of a watched descriptor, with the pointer given
-- for it, and no event that was not asked for but errors and hangups.
abbrev pub IsReported : (E : Epoll) → E.Kernel → Event → Type 0
IsReported E k e =
    (fd : ℕ) × (asked : Event) × (E.interest k fd ≡ some asked)
    × (e.ptr ≡ asked.ptr)
    × (has e.events read_event ≡ true → has asked.events read_event ≡ true)
    × (has e.events write_event ≡ true → has asked.events write_event ≡ true)

-- The event is for a channel that is registered and wants it.
abbrev pub IsWanted : {E : Epoll} → World E → Event → Type 0
IsWanted w e =
    (i : ℕ) × ((w.chan i).address ≡ e.ptr)
    × ((w.chan i).index ≡ added)
    × (has e.events read_event ≡ true → is_reading (w.chan i) ≡ true)
    × (has e.events write_event ≡ true → is_writing (w.chan i) ≡ true)

module _ {E : Epoll} (laws : IsEpoll E) where
  -- Every watched descriptor is that of a channel.
  abbrev Known : World E → Type 0
  Known w =
      (j : ℕ) (asked : Event)
      → E.interest w.poller.kernel j ≡ some asked
      → (i : ℕ) × ((w.chan i).fd ≡ j)

  store-Known :
      (w : World E) (i : ℕ) (p : Poller E) (c : Channel)
      → Known w
      → c.fd ≡ (w.chan i).fd
      → ((j : ℕ) (asked : Event)
          → (c.fd == j) ≡ false
          → E.interest p.kernel j ≡ some asked
          → E.interest w.poller.kernel j ≡ some asked)
      → Known (store w i (p, c))
  store-Known w i p c known same others j asked e = elim (Bool-cases (c.fd == j)) [
    | inl here ↦ (
      i,
      map-changed (λ (d : Channel). d.fd) i i c w.chan same ∙ sym same ∙ (==_iff c.fd j).0 here,
    )
    | inr there ↦
        let (n, at) = known j asked (others j asked there e) in
        (n, map-changed (λ (d : Channel). d.fd) i n c w.chan same ∙ at)
  ]

  differs : {i j : ℕ} → (i == j) ≡ false → i ≢ j
  differs {i} {j} h e = ground (arith, h, e)

  call-Known :
      (x : Call) (in_loop : Bool) (w w' : World E) (i : ℕ)
      → Inv laws w
      → Known w
      → call x in_loop w i ≡ some w'
      → Known w'
  unfolding call remove reactor_remove_channel change_events
  call-Known (changes m) in_loop w w' i inv known h =
      let c = change_events m (w.chan i) in
      subst Known (some_if (owned in_loop w i) _ (sym (change_channel-eq m in_loop w i) ∙ h)).1 (
        store-Known w i (update_channel w.poller c).0 (update_channel w.poller c).1 known
          (rw (update_channel-same laws w.poller c) refl)
          (λ j asked other e.
            sym (
              update_channel-interest laws w.poller c (w.chan i).events j
                (record { watches = (inv.holds i).watches; records = (inv.holds i).records })
                (differs (rw (update_channel-same laws w.poller c) at other)))
            ∙ e))
  call-Known removes in_loop w w' i inv known h = elim (Bool-cases (is_none_event (w.chan i))) [
    | inl none_left ↦
        let c = w.chan i in
        let same = (remove_channel-Holds laws w.poller c c.events (inv.holds i)).0 in
        subst Known (some_if (owned in_loop w i) _ (rw none_left at h)).1 (
          store-Known w i (remove_channel w.poller c).0 (remove_channel w.poller c).1 known
            (rw same refl)
            (λ j asked other e.
              sym (
                remove_channel-interest laws w.poller c c.events j (inv.holds i)
                  (differs (rw same at other)))
              ∙ e))
    | inr some_left ↦ absurd (cc (rw some_left at h))
  ]

  run-Known :
      (in_loop : Bool) (w w' : World E) (xs : List (ℕ × Call))
      → Inv laws w
      → Known w
      → run in_loop w xs ≡ some w'
      → Known w'
  unfolding run
  run-Known in_loop w w' [] inv known h = subst Known (some_if true w h).1 known
  run-Known in_loop w w' ((i, x) ∷ xs) inv known h =
      let (v, e, later) = >>=-eq-some (call x in_loop w i) (λ v. run in_loop v xs) h in
      run-Known in_loop v w' xs (call-Inv laws x in_loop w v i inv e)
        (call-Known x in_loop w v i inv known e) later

  fresh-Known :
      (k : E.Kernel) (reactor : ℕ) (address fd : ℕ → ℕ)
      → ((j : ℕ) → E.interest k j ≡ none)
      → Known (fresh k reactor address fd)
  unfolding fresh
  fresh-Known k reactor address fd idle j asked e = absurd (cc (idle j, e))

  watched_added :
      (x : Index) (e asked : Event) → watched x e ≡ some asked → (x ≡ added) × (e ≡ asked)
  watched_added added e asked h = (refl, cc)
  watched_added _ e asked h = absurd (cc)

  IsReported-IsWanted :
      (w : World E) (e : Event)
      → Inv laws w
      → Known w
      → IsReported E w.poller.kernel e
      → IsWanted w e
  unfolding is_reading is_writing
  IsReported-IsWanted w e inv known (j, asked, found, ptr, reads, writes) =
      let (i, at) = known j asked found in
      let (on, given) =
        watched_added (w.chan i).index (event_of (w.chan i)) asked
          (sym (inv.holds i).watches ∙ ap (λ d. E.interest w.poller.kernel d) at ∙ found) in
      (
        i,
        ap (λ x. x.ptr) given ∙ sym ptr,
        on,
        λ h. ap (λ x. has x.events read_event) given ∙ reads h,
        λ h. ap (λ x. has x.events write_event) given ∙ writes h,
      )

  poll-active : (p : Poller E) (es : List Event) (h : Heap) → (poll p (ready es) h []).2 ≡ named es
  unfolding poll
  poll-active p [] h = refl
  poll-active p (e ∷ es) h = fill-active (e ∷ es) h []

  -- On a new reactor, with channels for different descriptors, after any calls of the channels'
  -- methods that fail no assertion: the channels that `poll` makes active are those that the events
  -- of epoll name, in their order; and each of them is the address of a channel with the index
  -- `kAdded`, which is reported readable only if it wants to read and writable only if it wants to
  -- write; if epoll does what it documents.
  pub run-fresh-active :
      (k : E.Kernel) (reactor : ℕ) (address fd : ℕ → ℕ) (in_loop : Bool) (calls : List (ℕ × Call))
      (w : World E) (es : List Event) (h : Heap)
      → ((j : ℕ) → E.interest k j ≡ none)
      → ((i j : ℕ) → fd i ≡ fd j → i ≡ j)
      → run in_loop (fresh k reactor address fd) calls ≡ some w
      → All (IsReported E w.poller.kernel) es
      → ((poll w.poller (ready es) h []).2 ≡ named es) × All (IsWanted w) es
  run-fresh-active k reactor address fd in_loop calls w es h idle distinct e reported =
      let start = fresh-Inv laws k reactor address fd idle distinct in
      let inv = run-Inv laws in_loop _ w calls start e in
      let known = run-Known in_loop _ w calls start (fresh-Known k reactor address fd idle) e in
      (
        poll-active w.poller es h,
        All-map (IsReported E w.poller.kernel) (λ x r. IsReported-IsWanted w x inv known r) es
            reported,
      )
