-- ===== src/Server/Acceptor.antt =====
-- The accepting channel of a server on its main reactor: `start` and `stop` of
-- src/network/tcp_server.cpp, over Registry. The channel 0 is the reactor's wakeup channel, and 1
-- the accepting one. `none` is an assertion that fails, or an eventfd that cannot be made.
pub mod Threads
use order_engine.Prelude.{
  ℕ, Bool, true, false, ◌||◌, Option, none, some, ◌==◌, if◌then◌else◌, ◌>>=◌,
}
use order_engine.Channel.{Channel, enable_reading, is_reading, is_writing}
use order_engine.Poller.{Epoll, changed}
use order_engine.Registry.{World, construct, change_channel, destroy}

-- `thread_id` is that of the main reactor.
pub record Acceptor (E : Epoll) : Type 0 where
  pub thread_id : ℕ
  pub world : World E

module _ {E : Epoll} where
  -- `~Channel()`
  unfoldable pub destroy_channel : Channel → World E → Option (World E)
  destroy_channel c w = if is_reading c || is_writing c then none else some w

  -- `start` in the thread `me`: the main reactor, and the channel on the listening socket.
  unfoldable pub open_acceptor :
      ℕ → Option ℕ → E.Kernel → ℕ → (ℕ → ℕ) → (ℕ → ℕ) → ℕ → Option (Acceptor E)
  open_acceptor me eventfd k reactor address fd listen_fd = do
    w ← construct eventfd k reactor address (changed 1 listen_fd fd)
    w' ← change_channel enable_reading (me == me) w 1
    some (record { thread_id = me; world = w' })

  -- `stop` in the thread `t`: `disableAll()`, `remove()` and `reset()`.
  unfoldable pub close_acceptor : ℕ → Acceptor E → Option (Acceptor E)
  unfolding destroy_channel
  close_acceptor t a = do
    w ← destroy (a.thread_id == t) a.world 1
    w' ← destroy_channel (w.chan 1) w
    some (record a { world = w' })
