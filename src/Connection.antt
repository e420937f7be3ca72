-- ===== src/Connection.antt =====
-- include/network/tcp_connection.h and src/network/tcp_connection.cpp. What a system call returns
-- and the time are arguments of the method that makes the call. The callbacks act on the connection
-- and on a state `W` of their owner. `wire` records the bytes that the kernel took, which is the
-- side of `write` that the program does not keep. Messages to the log are not modelled.
pub mod Address
pub mod Stream
pub mod Lifecycle
pub mod History
use order_engine.Prelude.{
  ℕ, suc, ◌+◌, ◌-◌, Bool, true, false, not, ◌&&◌, ◌||◌, Option, none, some, List, [], ◌∷◌, ◌++◌,
  Bytes, ◌==◌, if◌then◌else◌, ltb, length, take, drop, ℤ, pos, negsuc, bytes_eq,
}

-- `State`
pub data State : Type 0 where
  connecting connected disconnecting disconnected : State

-- <errno.h>; on Linux EWOULDBLOCK is EAGAIN.
pub data Errno : Type 0 where
  eagain epipe econnreset other_error : Errno

-- What `write` returned: how many bytes were taken, or the error.
pub data Written : Type 0 where
  wrote : ℕ → Written
  write_failed : Errno → Written

-- What `read` returned: the bytes, none of them at the end of the stream, or the error.
pub data Received : Type 0 where
  received : Bytes → Received
  read_failed : Errno → Received

pub record Connection : Type 0 where
  pub sockfd : ℕ
  pub state : State
  pub input_buffer : Bytes
  pub output_buffer : Bytes
  pub last_active_time : ℕ
  pub wire : Bytes

-- `TcpConnection(sockfd, peer_addr)`
unfoldable pub create : ℕ → ℕ → Connection
create sockfd now = record {
  sockfd = sockfd;
  state = connecting;
  input_buffer = [];
  output_buffer = [];
  last_active_time = now;
  wire = [];
}

abbrev pub is_connected_state : State → Bool
is_connected_state connected = true
is_connected_state _ = false

unfoldable pub is_connected : Connection → Bool
is_connected c = is_connected_state c.state

abbrev pub set_state : State → Connection → Connection
set_state s c = record c { state = s }

abbrev pub touch : ℕ → Connection → Connection
touch now c = record c { last_active_time = now }

unfoldable pub establish_connection : ℕ → Connection → Connection
establish_connection now c = touch now (set_state connected c)

-- `now - last_active > timeout_seconds`, over signed numbers.
unfoldable is_timeout : ℕ → ℤ → Connection → Bool
is_timeout now (pos seconds) c = ltb (c.last_active_time + seconds) now
is_timeout now (negsuc n) c = ltb c.last_active_time (now + suc n)

abbrev pub is_fault : Errno → Bool
is_fault epipe = true
is_fault econnreset = true
is_fault _ = false

abbrev pub is_again : Errno → Bool
is_again eagain = true
is_again _ = false

abbrev pub is_empty : Bytes → Bool
is_empty [] = true
is_empty (b ∷ bs) = false

-- The end of `send`: what was not written is kept, unless the peer is gone.
unfoldable pub keep_rest : Connection → Bytes → (nwrote remaining : ℕ) → Bool → Connection × ℤ
keep_rest c bytes nwrote remaining fault_error = (
  if not fault_error && ltb 0 remaining
      then record c { output_buffer = c.output_buffer ++ take remaining (drop nwrote bytes) }
      else c,
  if fault_error then negsuc 0 else pos (length bytes),
)

-- `write(sockfd_, data, len)`, made only while nothing waits in the buffer. Its result is at most
-- `len`, so `remaining` does not wrap and the assertion behind it holds.
unfoldable pub write_directly : Connection → Bytes → Written → Connection × ℤ
write_directly c bytes (wrote n) =
    let c' = record c { wire = c.wire ++ take n bytes } in
    let remaining = length bytes - n in
    if remaining == 0 then (c', pos n) else keep_rest c' bytes n remaining false
write_directly c bytes (write_failed e) = keep_rest c bytes 0 (length bytes) (is_fault e)

unfoldable pub send : Written → ℕ → Connection → Bytes → Connection × ℤ
send w now c bytes =
    if not (is_connected c)
    then (c, negsuc 0)
    else if is_empty c.output_buffer
    then write_directly (touch now c) bytes w
    else keep_rest (touch now c) bytes 0 (length bytes) false

-- The callbacks that the owner sets.
pub record Handlers (W : Type 0) : Type 0 where
  pub message_callback : Option (Connection × W → Bytes → Connection × W)
  pub close_callback : Option (Connection × W → Connection × W)

module _ {W : Type 0} where
  abbrev notify_close : Option (Connection × W → Connection × W) → Connection × W → Connection × W
  notify_close none s = s
  notify_close (some f) s = f s

  abbrev finish_close : Connection × W → Connection × W
  finish_close (c, w) = (set_state disconnected c, w)

  unfoldable pub close_connection : Handlers W → Connection × W → Connection × W
  close_connection h (c, w) =
      if is_connected c
      then finish_close (notify_close h.close_callback (set_state disconnecting c, w))
      else (c, w)

  -- `handleError()`: the error of the socket is only logged.
  unfoldable pub handle_error : Handlers W → Connection × W → Connection × W
  handle_error h s = close_connection h s

  -- The buffer is emptied whatever the callback did.
  abbrev clear_input : Connection × W → Connection × W
  clear_input (c, w) = (record c { input_buffer = [] }, w)

  abbrev notify_message :
      Option (Connection × W → Bytes → Connection × W) → Connection → W → Connection × W
  notify_message none c w = (c, w)
  notify_message (some f) c w = clear_input (f (c, w) c.input_buffer)

  unfoldable pub handle_read : Handlers W → Received → ℕ → Connection × W → Connection × W
  handle_read h (received []) now (c, w) = close_connection h (touch now c, w)
  handle_read h (received (b ∷ bs)) now (c, w) =
      notify_message h.message_callback
        (record c { last_active_time = now; input_buffer = c.input_buffer ++ b ∷ bs }) w
  handle_read h (read_failed e) now (c, w) =
      if is_again e then (touch now c, w) else handle_error h (touch now c, w)

  -- The branch where `write` took nothing, with the value of `errno`.
  abbrev not_written : Handlers W → Errno → Connection × W → Connection × W
  not_written h e s = if is_again e then s else handle_error h s

  -- Where `write` returns 0 the code looks at `errno`, which no call has set: it is `stale`.
  abbrev drain : Handlers W → Written → Errno → Connection × W → Connection × W
  drain h (wrote n) stale (c, w) =
      if ltb 0 n
      then (
        record c {
          output_buffer = drop n c.output_buffer;
          wire = c.wire ++ take n c.output_buffer;
        },
        w,
      )
      else not_written h stale (c, w)
  drain h (write_failed e) stale s = not_written h e s

  unfoldable pub handle_write : Handlers W → Written → Errno → ℕ → Connection × W → Connection × W
  handle_write h r stale now (c, w) =
      if is_empty c.output_buffer then (touch now c, w) else drain h r stale (touch now c, w)
