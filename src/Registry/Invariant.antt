-- ===== src/Registry/Invariant.antt =====
-- After any calls on any channels the poller agrees with all of them. (src/network/channel.cpp,
-- src/network/reactor.cpp)
use order_engine.Prelude.{
  ℕ, Bool, true, false, none, some, List, [], ◌∷◌, ◌≡◌, ◌≢◌, refl, sym, ◌∙◌, inl, inr, ◌==◌, ==_iff,
  ap, if◌then◌else◌, Bool-cases, arith, nat_eq, >>=-eq-some, subst,
}
use mathlib.Core.Path.{fun_ext}
use order_engine.Channel.{Channel, Change, change_events, is_none_event}
use order_engine.Channel.Masks.{IsInterest, change_mask-IsInterest}
use order_engine.Poller.{Epoll, IsEpoll, Poller, changed, update_channel, remove_channel}
use order_engine.Poller.Watch.{
  Holds, update_channel-Holds, update_channel-others, update_channel-same, remove_channel-Holds,
  remove_channel-others,
}
use order_engine.Registry.{
  World, store, owned, reactor_update_channel, reactor_remove_channel, change_channel, remove, Call,
  changes, removes, call, run,
}

pub changed_self : {A : Type 0} (i : ℕ) (a : A) (f : ℕ → A) → changed i a f i ≡ a
changed_self i a f = ground arith

pub changed-changed :
    {A : Type 0} (i : ℕ) (a b : A) (f : ℕ → A) → changed i b (changed i a f) ≡ changed i b f
changed-changed i a b f = fun_ext λ j. ground arith

-- What a write of one element keeps of it, it keeps of all.
pub map-changed :
    {A B : Type 0} (g : A → B) (i j : ℕ) (a : A) (f : ℕ → A)
    → g a ≡ g (f i)
    → g (changed i a f j) ≡ g (f j)
map-changed g i j a f e = elim (Bool-cases (i == j)) [
  | inl same ↦ rw same (e ∙ ap (λ n. g (f n)) ((==_iff i j).0 same))
  | inr other ↦ rw other refl
]

-- A change of the mask and the update behind it, in one step.
pub change_channel-eq :
    {E : Epoll} (m : Change) (in_loop : Bool) (w : World E) (i : ℕ)
    → change_channel m in_loop w i ≡ (
        if owned in_loop w i
        then some (store w i (update_channel w.poller (change_events m (w.chan i))))
        else none)
unfolding change_channel reactor_update_channel change_events
change_channel-eq m in_loop w i =
    let c = change_events m (w.chan i) in
    rw (changed_self i c w.chan, changed-changed i c (update_channel w.poller c).1 w.chan) refl

pub some_if :
    {A : Type 0} (b : Bool) (a : A) {r : A}
    → (if b then some a else none) ≡ some r
    → (b ≡ true) × (a ≡ r)
some_if true a h = ground arith
some_if false a h = cc

module _ {E : Epoll} (laws : IsEpoll E) where
  -- Channels have descriptors of their own; for each, the kernel watches exactly the mask that the
  -- channel has if its index is `kAdded`, and nothing otherwise, and `channels_` holds it unless
  -- its index is `kNew`.
  pub record Inv (w : World E) : Type 0 where
    pub distinct : (i j : ℕ) → (w.chan i).fd ≡ (w.chan j).fd → i ≡ j
    pub holds : (i : ℕ) → Holds laws w.poller (w.chan i) (w.chan i).events
    pub masks : (i : ℕ) → IsInterest (w.chan i).events

  -- One channel is written, and the poller holds it and all the others.
  store-Inv :
      (w : World E) (i : ℕ) (p : Poller E) (c : Channel)
      → Inv w
      → c.fd ≡ (w.chan i).fd
      → Holds laws p c c.events
      → IsInterest c.events
      → ((j : ℕ) → i ≢ j → Holds laws p (w.chan j) (w.chan j).events)
      → Inv (store w i (p, c))
  store-Inv w i p c inv fd held interest others = record {
    distinct = λ a b e. ground (arith, fd, inv.distinct a b, inv.distinct a i, inv.distinct i b);
    holds = λ j. at j (λ d. Holds laws p d d.events) held (others j);
    masks = λ j. at j (λ d. IsInterest d.events) interest (λ _. inv.masks j);
  }
    where
      at : (j : ℕ) (P : Channel → Type 0) → P c → (i ≢ j → P (w.chan j)) → P (changed i c w.chan j)
      at j P h k = elim (Bool-cases (i == j)) [
        | inl e ↦ rw e h
        | inr e ↦ rw e (k (λ q. ground arith))
      ]

  pub change_channel-Inv :
      (m : Change) (in_loop : Bool) (w w' : World E) (i : ℕ)
      → Inv w
      → change_channel m in_loop w i ≡ some w'
      → Inv w'
  unfolding change_events
  change_channel-Inv m in_loop w w' i inv h =
      let c = change_events m (w.chan i) in
      let held : Holds laws w.poller c (w.chan i).events = record {
        watches = (inv.holds i).watches;
        records = (inv.holds i).records;
      } in
      let same = update_channel-same laws w.poller c in
      subst Inv (some_if (owned in_loop w i) _ (sym (change_channel-eq m in_loop w i) ∙ h)).1 (
        store-Inv w i (update_channel w.poller c).0 (update_channel w.poller c).1 inv (rw same)
          (rw same (rw same at (update_channel-Holds laws w.poller c (w.chan i).events held)))
          (rw same (change_mask-IsInterest m (w.chan i).events (inv.masks i)))
          (λ j ne.
            update_channel-others laws w.poller c (w.chan j) (w.chan i).events (w.chan j).events
              held (λ e. ne (inv.distinct i j e)) (inv.holds j)))

  reactor_remove_channel-Inv :
      (in_loop : Bool) (w w' : World E) (i : ℕ)
      → Inv w
      → reactor_remove_channel in_loop w i ≡ some w'
      → Inv w'
  unfolding reactor_remove_channel
  reactor_remove_channel-Inv in_loop w w' i inv h =
      let c = w.chan i in
      let (same, watches, records) = remove_channel-Holds laws w.poller c c.events (inv.holds i) in
      subst Inv (some_if (owned in_loop w i) _ h).1 (
        store-Inv w i (remove_channel w.poller c).0 (remove_channel w.poller c).1 inv (rw same)
          (rw same (record { watches = watches; records = records })) (rw same (inv.masks i))
          (λ j ne.
            remove_channel-others laws w.poller c (w.chan j) c.events (w.chan j).events
              (inv.holds i) (λ e. ne (inv.distinct i j e)) (inv.holds j)))

  pub call-Inv :
      (x : Call) (in_loop : Bool) (w w' : World E) (i : ℕ)
      → Inv w
      → call x in_loop w i ≡ some w'
      → Inv w'
  unfolding call remove
  call-Inv (changes m) in_loop w w' i inv h = change_channel-Inv m in_loop w w' i inv h
  call-Inv removes in_loop w w' i inv h = elim (Bool-cases (is_none_event (w.chan i))) [
    | inl e ↦ reactor_remove_channel-Inv in_loop w w' i inv (rw e at h)
    | inr e ↦ absurd (cc (rw e at h))
  ]

  pub run-Inv :
      (in_loop : Bool) (w w' : World E) (xs : List (ℕ × Call))
      → Inv w
      → run in_loop w xs ≡ some w'
      → Inv w'
  unfolding run
  run-Inv in_loop w w' [] inv h = subst Inv (some_if true w h).1 inv
  run-Inv in_loop w w' ((i, x) ∷ xs) inv h =
      let (v, e, later) = >>=-eq-some (call x in_loop w i) (λ v. run in_loop v xs) h in
      run-Inv in_loop v w' xs (call-Inv x in_loop w v i inv e) later
