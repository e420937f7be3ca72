-- ===== src/Registry.antt =====
-- Channels on a reactor's poller: `Channel::update` and `remove` (src/network/channel.cpp) through
-- `Reactor::updateChannel` and `removeChannel` (src/network/reactor.cpp) to the poller. The channels
-- are numbered. `none` is a failed assertion; `in_loop` is what `isInLoopThread()` returns.
pub mod Invariant
pub mod Watched
pub mod Active
use order_engine.Prelude.{
  ℕ, Bool, true, ◌&&◌, Option, none, some, List, [], ◌∷◌, ◌==◌, if◌then◌else◌, ◌>>=◌,
}
use order_engine.Channel.{
  Channel, Change, enable_reading, disable_all, change_events, is_none_event,
}
use order_engine.Channel
use order_engine.Poller
use order_engine.Poller.{Epoll, Poller, changed, update_channel, remove_channel}

-- A reactor's own number, its poller, and every channel.
pub record World (E : Epoll) : Type 0 where
  pub reactor : ℕ
  pub poller : Poller E
  pub chan : ℕ → Channel

module _ {E : Epoll} where
  abbrev pub store : World E → ℕ → Poller E × Channel → World E
  store w i (p, c) = record w { poller = p; chan = changed i c w.chan }

  -- A reactor with the poller of a new epoll instance, and channels that are not registered yet.
  unfoldable pub fresh : E.Kernel → ℕ → (ℕ → ℕ) → (ℕ → ℕ) → World E
  unfolding Poller.create Channel.create
  fresh k reactor address fd = record {
    reactor = reactor;
    poller = Poller.create k;
    chan = λ i. Channel.create (address i) reactor (fd i);
  }

  -- The assertions of both functions of the reactor.
  abbrev pub owned : Bool → World E → ℕ → Bool
  owned in_loop w i = (w.chan i).owner == w.reactor && in_loop

  unfoldable pub reactor_update_channel : Bool → World E → ℕ → Option (World E)
  reactor_update_channel in_loop w i =
      if owned in_loop w i then some (store w i (update_channel w.poller (w.chan i))) else none

  unfoldable pub reactor_remove_channel : Bool → World E → ℕ → Option (World E)
  reactor_remove_channel in_loop w i =
      if owned in_loop w i then some (store w i (remove_channel w.poller (w.chan i))) else none

  -- `enableReading()` and its kin.
  unfoldable pub change_channel : Change → Bool → World E → ℕ → Option (World E)
  change_channel m in_loop w i =
      reactor_update_channel in_loop
        (record w { chan = changed i (change_events m (w.chan i)) w.chan }) i

  -- `Channel::remove()`
  unfoldable pub remove : Bool → World E → ℕ → Option (World E)
  remove in_loop w i = if is_none_event (w.chan i) then reactor_remove_channel in_loop w i else none

  -- `Reactor()`: the wakeup channel is number 0, on the eventfd, without which the program aborts.
  unfoldable pub construct : Option ℕ → E.Kernel → ℕ → (ℕ → ℕ) → (ℕ → ℕ) → Option (World E)
  construct eventfd k reactor address fd = do
    evtfd ← eventfd
    change_channel enable_reading true (fresh k reactor address (changed 0 evtfd fd)) 0

  -- `~Reactor()` up to its `close`, where `i` is the number of the wakeup channel.
  unfoldable pub destroy : Bool → World E → ℕ → Option (World E)
  destroy in_loop w i = do u ← change_channel disable_all in_loop w i; remove in_loop u i

-- A call of one of these methods.
pub data Call : Type 0 where
  changes : Change → Call
  removes : Call

module _ {E : Epoll} where
  unfoldable pub call : Call → Bool → World E → ℕ → Option (World E)
  call (changes m) in_loop w i = change_channel m in_loop w i
  call removes in_loop w i = remove in_loop w i

  -- Calls one after the other, each on a channel.
  unfoldable pub run : Bool → World E → List (ℕ × Call) → Option (World E)
  run in_loop w [] = some w
  run in_loop w ((i, x) ∷ xs) = do w' ← call x in_loop w i; run in_loop w' xs
