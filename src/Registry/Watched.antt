-- ===== src/Registry/Watched.antt =====
-- What epoll watches after any use of a reactor's channels, and after their shutdown.
-- (src/network/channel.cpp, src/network/reactor.cpp, src/network/poller.cpp)
use order_engine.Prelude.{
  ℕ, Bool, true, false, none, some, List, ◌≡◌, refl, ◌∙◌, arith, lookup, nat_eq,
}
use order_engine.Channel.{Channel, disable_all, new, is_none_event, change_events}
use order_engine.Poller.{Epoll, IsEpoll, event_of, remove_channel, update_channel}
use order_engine.Poller.Watch.{watched, recorded, remove_channel-Holds, update_channel-same}
use order_engine.Registry.{
  World, store, reactor_remove_channel, Call, run, owned, change_channel, remove, destroy, fresh,
}
use order_engine.Registry.Invariant.{
  Inv, run-Inv, change_channel-eq, changed_self, change_channel-Inv,
}

module _ {E : Epoll} (laws : IsEpoll E) where
  pub fresh-Inv :
      (k : E.Kernel) (reactor : ℕ) (address fd : ℕ → ℕ)
      → ((j : ℕ) → E.interest k j ≡ none)
      → ((i j : ℕ) → fd i ≡ fd j → i ≡ j)
      → Inv laws (fresh k reactor address fd)
  unfolding fresh
  fresh-Inv k reactor address fd idle distinct = record {
    distinct = distinct;
    holds = λ i. record { watches = idle (fd i); records = unfold lookup in refl };
    masks = λ i. record { reads = false; writes = false; is_mask = refl };
  }

  -- On a new reactor, with channels for different descriptors: after any calls of the channels'
  -- methods that fail no assertion, epoll watches the descriptor of a channel exactly if the
  -- channel's index is `kAdded`, with the channel's present mask and its own address; and
  -- `channels_` maps the descriptor to the channel exactly if the index is not `kNew`; if `epoll_ctl`
  -- does what it documents.
  pub run-fresh-watched :
      (k : E.Kernel) (reactor : ℕ) (address fd : ℕ → ℕ) (in_loop : Bool) (calls : List (ℕ × Call))
      (w : World E)
      → ((j : ℕ) → E.interest k j ≡ none)
      → ((i j : ℕ) → fd i ≡ fd j → i ≡ j)
      → run in_loop (fresh k reactor address fd) calls ≡ some w
      → (i : ℕ)
      → let c = w.chan i in
        (E.interest w.poller.kernel c.fd ≡ watched c.index (event_of c))
        × (lookup c.fd w.poller.channels ≡ recorded c.index c.address)
  run-fresh-watched k reactor address fd in_loop calls w idle distinct h i =
      let inv = run-Inv laws in_loop _ w calls (fresh-Inv k reactor address fd idle distinct) h in
      ((inv.holds i).watches, (inv.holds i).records)

  -- What `remove()` leaves of a channel with no interest.
  abbrev Gone : World E → ℕ → ℕ → Type 0
  Gone v i fd =
      ((v.chan i).index ≡ new)
      × (is_none_event (v.chan i) ≡ true)
      × (E.interest v.poller.kernel fd ≡ none)
      × (lookup fd v.poller.channels ≡ none)

  remove-Gone :
      (u : World E) (i : ℕ)
      → Inv laws u
      → (u.chan i).events ≡ 0
      → owned true u i ≡ true
      → (v : World E) × (remove true u i ≡ some v) × Gone v i (u.chan i).fd
  unfolding remove reactor_remove_channel is_none_event
  remove-Gone u i inv quiet own =
      let c = u.chan i in
      let (same, watches, records) = remove_channel-Holds laws u.poller c c.events (inv.holds i) in
      (
        store u i (remove_channel u.poller c),
        rw (quiet, own) refl,
        (
          rw (changed_self i (remove_channel u.poller c).1 u.chan, same) refl,
          rw (changed_self i (remove_channel u.poller c).1 u.chan, same, quiet) refl,
          watches,
          records,
        ),
      )

  -- `disableAll(); remove();`, which is all that `~Reactor()` does with its wakeup channel, in the
  -- loop's thread and on a channel of this reactor: no assertion fails, the channel is as new with
  -- no interest, nothing watches its descriptor any more and `channels_` does not hold it, whatever
  -- state the channel was in; if `epoll_ctl` does what it documents and the reactor's invariant
  -- holds.
  pub disable_all-remove :
      (w : World E) (i : ℕ)
      → Inv laws w
      → (w.chan i).owner ≡ w.reactor
      → (v : World E) × (destroy true w i ≡ some v) × Gone v i (w.chan i).fd
  unfolding destroy
  disable_all-remove w i inv own = (removed.0, rw disabled removed.1, removed.2)
    where
      c : Channel
      c = record (w.chan i) { events = 0 }

      u : World E
      u = store w i (update_channel w.poller c)

      disabled : change_channel disable_all true w i ≡ some u
      disabled =
          change_channel-eq disable_all true w i ∙ unfold change_events in ground (arith, own)

      now : u.chan i ≡ record c { index = (update_channel w.poller c).1.index }
      now =
          changed_self i (update_channel w.poller c).1 w.chan ∙ update_channel-same laws w.poller c

      removed : (v : World E) × (remove true u i ≡ some v) × Gone v i (w.chan i).fd
      removed = rw now at (
          remove-Gone u i (change_channel-Inv laws disable_all true w u i inv disabled) (rw now)
            (rw now (ground (arith, own))))
