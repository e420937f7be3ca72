-- ===== src/Server/Acceptor/Threads.antt =====
-- Which thread can stop a server (src/network/tcp_server.cpp, src/network/reactor.cpp).
use order_engine.Prelude.{
  ℕ, ◌≡◌, refl, ◌∙◌, true, false, none, some, ◌==◌, ==_iff, if◌then◌else◌, Bool-cases, inl, inr,
}
use order_engine.Channel
use order_engine.Channel.{
  Channel, change_mask, Change, added, enable_reading, disable_all, read_event, change_events,
  is_none_event, is_reading, is_writing,
}
use order_engine.Poller.{Epoll, IsEpoll, changed, update_channel, update_channel_at}
use order_engine.Registry.{World, store, fresh, construct, change_channel, destroy}
use order_engine.Registry.Invariant.{Inv, change_channel-eq, change_channel-Inv}
use order_engine.Registry.Watched.{fresh-Inv, disable_all-remove}
use order_engine.Server.Acceptor.{Acceptor, open_acceptor, close_acceptor, destroy_channel}

self-eq : (n : ℕ) → (n == n) ≡ true
self-eq n = (==_iff n n).1 refl

module _ {E : Epoll} where
  -- A channel of the reactor, in its thread.
  change_channel-owned :
      (m : Change) (w : World E) (i : ℕ)
      → (w.chan i).owner ≡ w.reactor
      → change_channel m true w i
        ≡ some (store w i (update_channel w.poller (change_events m (w.chan i))))
  change_channel-owned m w i own = change_channel-eq m true w i ∙ rw (own, self-eq w.reactor) refl

  -- In another thread.
  destroy-none : (w : World E) (i : ℕ) → destroy false w i ≡ none
  unfolding destroy
  destroy-none w i =
      rw (change_channel-eq disable_all false w i)
        (elim (Bool-cases ((w.chan i).owner == w.reactor)) [
          | inl e ↦ rw e refl
          | inr e ↦ rw e refl
        ])

  destroy_channel-quiet :
      (c : Channel) (w : World E) → is_none_event c ≡ true → destroy_channel c w ≡ some w
  unfolding destroy_channel is_none_event is_reading is_writing
  destroy_channel-quiet c w h = let e = (==_iff c.events 0).0 h in rw e refl

  -- The main reactor with its wakeup channel, and with the accepting channel.
  abbrev first : E.Kernel → ℕ → (ℕ → ℕ) → (ℕ → ℕ) → World E
  first k reactor address fd =
      let w = fresh k reactor address fd in
      store w 0 (update_channel w.poller (change_events enable_reading (w.chan 0)))

  abbrev second : E.Kernel → ℕ → (ℕ → ℕ) → (ℕ → ℕ) → World E
  second k reactor address fd =
      let w = first k reactor address fd in
      store w 1 (update_channel w.poller (change_events enable_reading (w.chan 1)))

  first-eq :
      (k : E.Kernel) (reactor : ℕ) (address fd : ℕ → ℕ)
      → change_channel enable_reading true (fresh k reactor address fd) 0
        ≡ some (first k reactor address fd)
  first-eq k reactor address fd =
      change_channel-owned enable_reading (fresh k reactor address fd) 0 (unfold fresh in refl)

  second-eq :
      (k : E.Kernel) (reactor : ℕ) (address fd : ℕ → ℕ)
      → change_channel enable_reading true (first k reactor address fd) 1
        ≡ some (second k reactor address fd)
  second-eq k reactor address fd =
      change_channel-owned enable_reading (first k reactor address fd) 1 (unfold fresh in refl)

  open_acceptor-eq :
      (me evtfd listen_fd reactor : ℕ) (k : E.Kernel) (address fd : ℕ → ℕ)
      → open_acceptor me (some evtfd) k reactor address fd listen_fd
        ≡ some (record {
          thread_id = me;
          world = second k reactor address (changed 0 evtfd (changed 1 listen_fd fd));
        })
  unfolding open_acceptor construct
  open_acceptor-eq me evtfd listen_fd reactor k address fd =
      let fds = changed 0 evtfd (changed 1 listen_fd fd) in
      rw (first-eq k reactor address fds, self-eq me, second-eq k reactor address fds) refl

-- The accepting channel, as `start` leaves it.
second-channel :
    (E : Epoll) (k : E.Kernel) (reactor : ℕ) (address fd : ℕ → ℕ)
    → (second {E = E} k reactor address fd).chan 1
      ≡ record (Channel.create (address 1) reactor (fd 1)) { events = read_event; index = added }
unfolding fresh update_channel update_channel_at change_events Channel.create change_mask
second-channel E k reactor address fd = refl

module _ {E : Epoll} (laws : IsEpoll E) where
  second-Inv :
      (k : E.Kernel) (reactor : ℕ) (address fd : ℕ → ℕ)
      → ((j : ℕ) → E.interest k j ≡ none)
      → ((i j : ℕ) → fd i ≡ fd j → i ≡ j)
      → Inv laws (second k reactor address fd)
  second-Inv k reactor address fd idle distinct =
      let start = fresh-Inv laws k reactor address fd idle distinct in
      let one =
        change_channel-Inv laws enable_reading true _ _ 0 start (first-eq k reactor address fd) in
      change_channel-Inv laws enable_reading true _ _ 1 one (second-eq k reactor address fd)

  -- A `start` whose eventfd and listening socket have descriptors of their own makes a main
  -- reactor that watches the listening socket, for reading. A `stop` in the thread of the `start`
  -- fails no assertion, and the socket is watched no more; in any other thread it fails one.
  pub close-open_acceptor :
      (me t evtfd listen_fd reactor : ℕ) (k : E.Kernel) (address fd : ℕ → ℕ)
      → ((j : ℕ) → E.interest k j ≡ none)
      → ((i j : ℕ)
          → changed 0 evtfd (changed 1 listen_fd fd) i ≡ changed 0 evtfd (changed 1 listen_fd fd) j
          → i ≡ j)
      → (a a' : Acceptor E) × (open_acceptor me (some evtfd) k reactor address fd listen_fd
          ≡ some a)
        × (E.interest a.world.poller.kernel listen_fd
            ≡ some (record { events = read_event; ptr = address 1 }))
        × (close_acceptor t a ≡ (if me == t then some a' else none))
        × (E.interest a'.world.poller.kernel listen_fd ≡ none)
  unfolding close_acceptor fresh Channel.create
  close-open_acceptor me t evtfd listen_fd reactor k address fd idle distinct =
      let fds = changed 0 evtfd (changed 1 listen_fd fd) in
      let w = second k reactor address fds in
      let chan = second-channel E k reactor address fds in
      let inv = second-Inv k reactor address fds idle distinct in
      let (v, done, gone) = disable_all-remove laws w 1 inv (rw chan refl) in
      (
        record { thread_id = me; world = w },
        record { thread_id = me; world = v },
        open_acceptor-eq me evtfd listen_fd reactor k address fd,
        rw chan at (inv.holds 1).watches,
        elim (Bool-cases (me == t)) [
          | inl e ↦ rw (e, done, destroy_channel-quiet (v.chan 1) v gone.1) refl
          | inr e ↦ rw (e, destroy-none w 1) refl
        ],
        rw chan at gone.2,
      )
