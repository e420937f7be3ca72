-- ===== src/Tests/Connection.antt =====
-- Connections: src/network/tcp_connection.cpp at concrete inputs.
use order_engine.Prelude.{
  ℕ, Bytes, none, List, [], ◌∷◌, ◌++◌, ◌≡◌, inl, refl, codes, arith, pos, negsuc,
}
use order_engine.Channel
use order_engine.Text.Decimal.{to_string}
use order_engine.Connection.Address.{IsIp, get_peer_address, get_peer_address-whole_unique}
use order_engine.Connection.{
  Connection, connected, eagain, epipe, wrote, write_failed, received, create, establish_connection,
  send, handle_read, handle_write, handle_error, close_connection, is_connected, write_directly,
  keep_rest, Handlers,
}
use order_engine.Connection.History.{Step, sends, writes, run, run-stream}
use order_engine.Connection.Lifecycle.{Message, counting, Once}
use order_engine.Connection.Stream.{stream, Sent, send-Sent}
use order_engine.Session.{Outcome, callbacks, dispatch, dispatch_all}
use order_engine.Session.Closing.{dispatch_all-Once}

abbrev open_connection : Connection
open_connection = record {
  sockfd = 9;
  state = connected;
  input_buffer = [];
  output_buffer = [];
  last_active_time = 0;
  wire = [];
}

opened : establish_connection 0 (create 9 0) ≡ open_connection
unfolding establish_connection create
opened = refl

-- A partial write: the rest waits, and the answer is the whole length.
send_partly : send (wrote 2) 5 open_connection (codes "hello") ≡ (
  record open_connection { wire = codes "he"; output_buffer = codes "llo"; last_active_time = 5 },
  pos 5,
)
unfolding send write_directly keep_rest is_connected
send_partly = refl

send_broken : (send (write_failed epipe) 5 open_connection (codes "hello")).1 ≡ negsuc 0
unfolding send write_directly keep_rest is_connected
send_broken = refl

send-Sent_example :
    Sent open_connection (codes "hello") (send (wrote 2) 5 open_connection (codes "hello"))
send-Sent_example = send-Sent (wrote 2) 5 open_connection (codes "hello") (omega arith)

abbrev silent : Handlers ℕ
silent = record { message_callback = none; close_callback = none }

abbrev steps : List Step
steps =
    sends (wrote 2) 1 (codes "hello")
    ∷ sends (wrote 0) 2 (codes " world")
    ∷ writes (wrote 4) eagain 3
    ∷ writes (write_failed eagain) eagain 4
    ∷ []

run-stream_example :
    let (s, sent') = run silent steps (open_connection, 0) [] in stream s.0 ≡ [] ++ sent'
run-stream_example = run-stream silent steps open_connection 0 [] [] (λ f e. cc) (omega arith) refl

run-steps : (run silent steps (open_connection, 0) []).0.0.wire ≡ codes "hello "
unfolding run send write_directly keep_rest is_connected handle_write
run-steps = refl

-- An echo, by hand.
abbrev echo : Message
echo (c, n) m = (record c { output_buffer = c.output_buffer ++ m }, n)

abbrev outcomes : List Outcome
outcomes =
    record { revents = 1; read = received (codes "hi"); written = wrote 0; stale = eagain; now = 1 }
    ∷ record { revents = 0x18; read = received []; written = wrote 0; stale = eagain; now = 2 }
    ∷ record { revents = 1; read = received []; written = wrote 0; stale = eagain; now = 3 }
    ∷ []

-- Hang-up and error at once, and the end of the stream later: one call of the close callback.
closed_once :
    (dispatch_all (counting echo) (Channel.create 1 1 9) outcomes (open_connection, 4)).1 ≡ 5
unfolding dispatch_all dispatch callbacks Channel.create Channel.handle_event Channel.hung_up
    Channel.failed Channel.readable Channel.writable handle_read handle_write handle_error
    close_connection is_connected
closed_once = refl

dispatch_all-Once_example :
    Once 4 (dispatch_all (counting echo) (Channel.create 1 1 9) outcomes (open_connection, 4))
dispatch_all-Once_example =
    dispatch_all-Once echo (λ s m. (refl, refl)) 4 (Channel.create 1 1 9) outcomes
      (open_connection, 4) (inl (refl, refl))

abbrev last_port : ℕ
last_port = 65535

-- The longest address.
abbrev longest_ip : Bytes
longest_ip = codes "255.255.255.255"

longest_ip-IsIp : IsIp longest_ip
longest_ip-IsIp = record { short = omega arith; plain = ground arith }

get_peer_address-whole_unique_example :
    (get_peer_address longest_ip last_port ≡ longest_ip ++ b':' ∷ to_string (pos last_port))
    × (longest_ip ≡ longest_ip)
    × (last_port ≡ last_port)
get_peer_address-whole_unique_example =
    get_peer_address-whole_unique longest_ip longest_ip last_port last_port longest_ip-IsIp
      longest_ip-IsIp (omega arith) (omega arith) refl

prints : get_peer_address longest_ip last_port ≡ codes "255.255.255.255:65535"
unfolding get_peer_address to_string
prints = refl
