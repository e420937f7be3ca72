-- ===== src/Platform/Windows.antt =====
-- `SelectPoller` behind the interface (src/network/poller.cpp, src/network/channel.cpp and
-- src/network/reactor.cpp under _WIN32). The channels are numbered by their addresses; `none` is a
-- failed assertion; `in_loop` is what `isInLoopThread()` returns.
mod Masks
pub mod Laws
use Prim.Native.Nat.{bit_or, bit_and}
use order_engine.Prelude.{ℕ, Bool, ◌&&◌, Option, none, some, ◌==◌, if◌then◌else◌, true}
use order_engine.Channel
use order_engine.Channel.{
  Channel, Change, enable_reading, disable_reading, enable_writing, disable_writing, disable_all,
  complement, none_event, is_none_event,
}
use order_engine.Platform.{Platform, Wants}
use order_engine.Poller.{changed}
use order_engine.Poller.Select
use order_engine.Poller.Select.{
  Heap, SelectPoller, FdSets, is_set, read_event, write_event, update_channel, remove_channel,
  fill_sets, no_fds,
}

-- A reactor's own number, its poller, and every channel.
pub record World : Type 0 where
  pub reactor : ℕ
  pub poller : SelectPoller
  pub chan : Heap

-- `enableReading()` and its kin up to `update()`, with the constants for Windows.
unfoldable pub change_mask : Change → ℕ → ℕ
change_mask enable_reading e = bit_or e read_event
change_mask disable_reading e = bit_and e (complement read_event)
change_mask enable_writing e = bit_or e write_event
change_mask disable_writing e = bit_and e (complement write_event)
change_mask disable_all e = none_event

abbrev pub owned : Bool → World → ℕ → Bool
owned in_loop w a = (w.chan a).owner == w.reactor && in_loop

-- `Reactor::updateChannel`
unfoldable pub reactor_update_channel : Bool → World → ℕ → Option World
reactor_update_channel in_loop w a =
    if owned in_loop w a
    then some (record w { poller = update_channel w.chan a w.poller })
    else none

-- `Reactor::removeChannel`
unfoldable pub reactor_remove_channel : Bool → World → ℕ → Option World
reactor_remove_channel in_loop w a =
    if owned in_loop w a
    then some (record w { poller = remove_channel w.chan a w.poller })
    else none

abbrev pub with_mask : Change → World → ℕ → World
with_mask m w a = record w {
  chan = changed a (record (w.chan a) { events = change_mask m (w.chan a).events }) w.chan;
}

unfoldable pub change_channel : Change → Bool → World → ℕ → Option World
change_channel m in_loop w a = reactor_update_channel in_loop (with_mask m w a) a

-- `Channel::remove()`
unfoldable pub remove : Bool → World → ℕ → Option World
remove in_loop w a = if is_none_event (w.chan a) then reactor_remove_channel in_loop w a else none

-- A reactor with a new poller, and channels that are not registered yet.
unfoldable pub fresh : ℕ → (ℕ → ℕ) → World
unfolding Channel.create Select.create
fresh reactor fd = record {
  reactor = reactor;
  poller = Select.create;
  chan = λ a. Channel.create a reactor (fd a);
}

-- The sets that `poll` gives to `select`.
abbrev sets_of : World → FdSets
sets_of w = fill_sets w.chan w.poller.polled_channels no_fds

abbrev pub windows : Platform
windows = record {
  State = World;
  change_channel = λ m w a. change_channel m true w a;
  remove = λ w a. remove true w a;
  wants = λ w a. record {
    reads = is_set (w.chan a).fd (sets_of w).read;
    writes = is_set (w.chan a).fd (sets_of w).write;
  };
}
