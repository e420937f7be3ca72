-- ===== src/Application/Echo.antt =====
-- A dispatch to a client of the echo: the application's callback (src/main.cpp) behind the channel of
-- a connection (src/network/tcp_server.cpp, src/network/tcp_connection.cpp).
use order_engine.Prelude.{
  ℕ, ◌≤◌, ◌<◌, true, false, Option, none, Bool-cases, inl, inr, [], ◌∷◌, ◌++◌, ◌≡◌, ap, sym, ◌∙◌,
  Bytes, codes, length, if◌then◌else◌, append-nil, arith,
}
use order_engine.Channel.{Channel, handle_event, hung_up, failed, readable, writable}
use order_engine.Connection.{
  Connection, Written, wrote, write_failed, Received, received, read_failed, is_connected, is_again,
  handle_read, handle_write, Errno, is_connected_state,
}
use order_engine.Connection.History.{handle_write-stream}
use order_engine.Connection.Lifecycle.{send-state}
use order_engine.Connection.Stream.{stream}
use order_engine.Session.{Outcome, callbacks, dispatch}
use order_engine.Application.{handle_message}
use order_engine.Application.Settings.{echo, handle_read-echo}

-- A dispatch, and how many bytes `write` takes of the answer, if it is called for it.
pub record Exchange : Type 0 where
  pub outcome : Outcome
  pub reply : ℕ

module _ {W : Type 0} (close : Option (Connection × W → Connection × W)) (ch : Channel) where
  abbrev pub exchange : Exchange → Connection × W → Connection × W
  exchange x s = dispatch (echo close (wrote x.reply) x.outcome.now) ch x.outcome s

-- What the client hears of a dispatch.
abbrev heard_of : Received → Bytes
heard_of (received bytes) = codes "Echo: " ++ bytes
heard_of (read_failed e) = []

abbrev pub heard : Exchange → Bytes
heard x = if readable x.outcome.revents then heard_of x.outcome.read else []

abbrev Reads : ℕ → Received → Type 0
Reads reply (received []) = ⊥
Reads reply (received (b ∷ bs)) = reply ≤ length (codes "Echo: " ++ b ∷ bs)
Reads reply (read_failed e) = is_again e ≡ true

abbrev Drains : Written → Type 0
Drains (wrote n) = 0 < n
Drains (write_failed e) = is_again e ≡ true

-- Neither side closes, and no system call fails but for now.
pub record IsHealthy (x : Exchange) : Type 0 where
  pub stays : hung_up x.outcome.revents ≡ false
  pub works : failed x.outcome.revents ≡ false
  pub reads : Reads x.reply x.outcome.read
  pub drains : Drains x.outcome.written

-- Between two dispatches.
pub record IsEchoing (total : Bytes) (c : Connection) : Type 0 where
  pub connected : is_connected c ≡ true
  pub emptied : c.input_buffer ≡ []
  pub sent : stream c ≡ total

module _ {W : Type 0} (close : Option (Connection × W → Connection × W)) where
  read-connected :
      (n now : ℕ) (c : Connection) (u : W) (b : ℕ) (bs : Bytes)
      → is_connected c ≡ true
      → is_connected (handle_read (echo close (wrote n) now) (received (b ∷ bs)) now (c, u)).0
        ≡ true
  unfolding handle_read handle_message is_connected
  read-connected n now c u b bs on =
      let all = c.input_buffer ++ b ∷ bs in
      ap is_connected_state (
        send-state (wrote n) now (record c { last_active_time = now; input_buffer = all })
          (codes "Echo: " ++ all))
      ∙ on

  again-IsEchoing :
      (total : Bytes) (w : Written) (now : ℕ) (e : Errno) (c : Connection) (u : W)
      → is_again e ≡ true
      → IsEchoing total c
      → IsEchoing (total ++ []) (handle_read (echo close w now) (read_failed e) now (c, u)).0
  unfolding handle_read is_connected
  again-IsEchoing total w now e c u again h = rw again (record {
    connected = h.connected;
    emptied = h.emptied;
    sent = h.sent ∙ sym (append-nil total);
  })

  read-IsEchoing :
      (total : Bytes) (reply now : ℕ) (r : Received) (c : Connection) (u : W)
      → Reads reply r
      → IsEchoing total c
      → IsEchoing (total ++ heard_of r) (handle_read (echo close (wrote reply) now) r now (c, u)).0
  read-IsEchoing total reply now (received []) c u ok h = absurd ok
  read-IsEchoing total reply now (received (b ∷ bs)) c u ok h =
      let (passed, empty) = handle_read-echo close reply now c u b bs h.connected h.emptied ok in
      record {
        connected = read-connected reply now c u b bs h.connected;
        emptied = empty;
        sent = passed ∙ ap (λ l. l ++ (codes "Echo: " ++ b ∷ bs)) h.sent;
      }
  read-IsEchoing total reply now (read_failed e) c u ok h =
      again-IsEchoing total (wrote reply) now e c u ok h

  write_keeps :
      (w v : Written) (stale : Errno) (now then_at : ℕ) (c : Connection) (u : W)
      → Drains v
      → let c' = (handle_write (echo close w now) v stale then_at (c, u)).0 in
        (c'.state ≡ c.state) × (c'.input_buffer ≡ c.input_buffer)
  unfolding handle_write
  write_keeps w (wrote n) stale now then_at c u ok = ground arith
  write_keeps w (write_failed e) stale now then_at c u ok = ground arith

  -- No close callback is called.
  write_open :
      (w v : Written) (stale : Errno) (now then_at : ℕ) (c : Connection) (u : W)
      → Drains v
      → handle_write (echo close w now) v stale then_at (c, u)
        ≡ handle_write (echo none w now) v stale then_at (c, u)
  unfolding handle_write
  write_open w (wrote n) stale now then_at c u ok = ground arith
  write_open w (write_failed e) stale now then_at c u ok = ground arith

  write-IsEchoing :
      (total : Bytes) (w v : Written) (stale : Errno) (now : ℕ) (c : Connection) (u : W)
      → Drains v
      → IsEchoing total c
      → IsEchoing total (handle_write (echo close w now) v stale now (c, u)).0
  unfolding is_connected
  write-IsEchoing total w v stale now c u ok h =
      let (state, input) = write_keeps w v stale now now c u ok in
      record {
        connected = ap is_connected_state state ∙ h.connected;
        emptied = input ∙ h.emptied;
        sent =
            ap (λ s. stream s.0) (write_open w v stale now now c u ok)
            ∙ handle_write-stream (echo none w now) (λ f e. cc) v stale now c u
            ∙ h.sent;
      }

  pub exchange-IsEchoing :
      (ch : Channel) (x : Exchange) (total : Bytes) (s : Connection × W)
      → IsHealthy x
      → IsEchoing total s.0
      → IsEchoing (total ++ heard x) (exchange close ch x s).0
  unfolding dispatch handle_event callbacks
  exchange-IsEchoing ch x total s ok h =
      rw (ok.stays, ok.works)
        (elim (Bool-cases (readable x.outcome.revents)) [
          | inl r ↦ rw r (
              written
                (handle_read (echo close (wrote x.reply) x.outcome.now) x.outcome.read x.outcome.now
                  s)
                (total ++ heard_of x.outcome.read)
                (read-IsEchoing total x.reply x.outcome.now x.outcome.read s.0 s.1 ok.reads h))
          | inr r ↦ rw r (
              written s (total ++ []) (record {
                connected = h.connected;
                emptied = h.emptied;
                sent = h.sent ∙ sym (append-nil total);
              }))
        ])
    where
      written :
          (t : Connection × W) (all : Bytes)
          → IsEchoing all t.0
          → IsEchoing all
              (if writable x.outcome.revents
                then handle_write
                    (echo close (wrote x.reply) x.outcome.now)
                    x.outcome.written
                    x.outcome.stale
                    x.outcome.now
                    t
                else t).0
      written t all g = elim (Bool-cases (writable x.outcome.revents)) [
        | inl w ↦ rw w (
            write-IsEchoing all (wrote x.reply) x.outcome.written x.outcome.stale x.outcome.now t.0
              t.1 ok.drains g)
        | inr w ↦ rw w g
      ]
