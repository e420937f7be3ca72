-- ===== src/Connection/Lifecycle.antt =====
-- When a connection closes, and how often its owner hears of it. (src/network/tcp_connection.cpp)
use order_engine.Prelude.{ℕ, suc, some, [], ◌∷◌, ◌++◌, ◌≡◌, ◌⊎◌, Bytes, arith}
use order_engine.Connection.{
  Connection, connected, disconnected, Written, wrote, write_failed, Received, received,
  read_failed, Errno, Handlers, send, handle_read, handle_write, handle_error, close_connection,
  is_connected, touch, not_written, keep_rest, write_directly,
}

-- A close callback that counts its calls, and any message callback that neither opens nor closes
-- the connection.
abbrev pub Message : Type 0
Message = Connection × ℕ → Bytes → Connection × ℕ

abbrev pub counting : Message → Handlers ℕ
counting f = record { message_callback = some f; close_callback = some (λ s. (s.0, suc s.1)) }

abbrev pub Stays : Message → Type 0
Stays f = (s : Connection × ℕ) (m : Bytes) → ((f s m).0.state ≡ s.0.state) × ((f s m).1 ≡ s.1)

-- Open and never closed since `n`, or closed once.
abbrev pub Once : ℕ → Connection × ℕ → Type 0
Once n (c, k) = ((c.state ≡ connected) × (k ≡ n)) ⊎ ((c.state ≡ disconnected) × (k ≡ suc n))

-- `send` never changes the state.
pub send-state :
    (r : Written) (now : ℕ) (c : Connection) (bytes : Bytes)
    → (send r now c bytes).0.state ≡ c.state
unfolding send write_directly keep_rest
send-state (wrote n) now c bytes = ground arith
send-state (write_failed e) now c bytes = ground arith

module _ (f : Message) (stays : Stays f) (n : ℕ) where
  pub close_connection-Once :
      (s : Connection × ℕ) → Once n s → Once n (close_connection (counting f) s)
  unfolding close_connection is_connected
  close_connection-Once s o = ground arith

  pub handle_read-Once :
      (r : Received) (now : ℕ) (s : Connection × ℕ)
      → Once n s
      → Once n (handle_read (counting f) r now s)
  unfolding handle_read handle_error
  handle_read-Once (received []) now (c, k) o = close_connection-Once (touch now c, k) o
  handle_read-Once (received (b ∷ bs)) now (c, k) o =
      let c' = record c { last_active_time = now; input_buffer = c.input_buffer ++ b ∷ bs } in
      ground (arith, o, stays (c', k) c'.input_buffer)
  handle_read-Once (read_failed e) now (c, k) o =
      ground (arith, o, close_connection-Once (touch now c, k) o)

  not_written-Once :
      (e : Errno) (s : Connection × ℕ) → Once n s → Once n (not_written (counting f) e s)
  unfolding handle_error
  not_written-Once e s o = ground (arith, o, close_connection-Once s o)

  pub handle_write-Once :
      (r : Written) (stale : Errno) (now : ℕ) (s : Connection × ℕ)
      → Once n s
      → Once n (handle_write (counting f) r stale now s)
  unfolding handle_write
  handle_write-Once (wrote m) stale now (c, k) o =
      ground (arith, o, not_written-Once stale (touch now c, k) o)
  handle_write-Once (write_failed e) stale now (c, k) o =
      ground (arith, o, not_written-Once e (touch now c, k) o)
