-- ===== src/Tests/Round.antt =====
-- Rounds over the connections of a reactor: src/network/reactor.cpp at concrete inputs.
use order_engine.Prelude.{
  ℕ, Map, nat_eq, lookup, ltb, ◌+◌, List, ◌≡◌, refl, arith, [], ◌∷◌, codes, ◌==◌, if◌then◌else◌,
}
use order_engine.Channel
use order_engine.Channel.{Channel, handle_event, hung_up, failed, readable, writable}
use order_engine.Connection.{
  Connection, connected, disconnected, send, write_directly, keep_rest, received, wrote, eagain,
  handle_read, close_connection, is_connected,
}
use order_engine.Connection.Lifecycle.{Message, counting}
use order_engine.Poller.{Event, Poller}
use order_engine.Poller.Poll.{Heap, ready, named, reported, poll}
use order_engine.Session.{Outcome, callbacks, dispatch}
use order_engine.Session.Round.{Answers, times, round, rounds, dispatch_active, round-each}
use order_engine.Application.{handle_message}
use order_engine.Session.Table.{Stays, Listed, entered, rounds-Listed}
use order_engine.Tests.Epoll.{memory}

abbrev keep : Message
keep (c, n) m = (record c { output_buffer = m }, n)

abbrev pub channels : Heap
channels a = Channel.create a 1 (a + 5)

abbrev pub peers : ℕ → Connection
peers a = record {
  sockfd = a + 5;
  state = connected;
  input_buffer = [];
  output_buffer = [];
  last_active_time = 0;
  wire = [];
}

abbrev sends_hi : ℕ → Outcome
sends_hi a = record {
  revents = 0;
  read = received (codes "hi");
  written = wrote 0;
  stale = eagain;
  now = 1;
}

abbrev pub poller : Poller memory
poller = record { kernel = []; channels = []; capacity = 2 }

-- The channel 7 is readable, 9 was hung up.
abbrev events : List Event
events = record { events = 1; ptr = 7 } ∷ record { events = 0x10; ptr = 9 } ∷ []

round-each_example :
    (u : ℕ) × ((round (λ a. counting keep) sends_hi poller (ready events) channels (peers, 4)).2.0 7
      ≡ (if times 7 (named events) == 0
          then peers 7
          else (dispatch
              (counting keep)
              (channels 7)
              (record (sends_hi 7) { revents = reported 7 (channels 7).revents events })
              (peers 7, u)).0))
round-each_example =
    round-each (λ a. counting keep) sends_hi poller events channels (peers, 4) 7 (omega arith)

-- What arrived for 7 is read, 9 is closed, and 8 stays.
after :
    ((round (λ a. counting keep) sends_hi poller (ready events) channels (peers, 4)).2.1 ≡ 5)
    × ((round (λ a. counting keep) sends_hi poller (ready events) channels (peers, 4)).2.0 8
        ≡ peers 8)
    × (((round (λ a. counting keep) sends_hi poller (ready events) channels (peers, 4)).2.0
          7).output_buffer
        ≡ codes "hi")
unfolding round poll dispatch_active dispatch callbacks Channel.create handle_event hung_up failed
    readable writable handle_read close_connection is_connected
after = (refl, refl, refl)

-- The echo, which is what the application does with a message.
echo-Stays : Stays (handle_message {W = Map ℕ ℕ} (wrote 3) 1)
unfolding handle_message send write_directly keep_rest
echo-Stays (c, m) b = ground arith

-- The connections with an address below 2 are connected, and in the table.
abbrev two_peers : ℕ → Connection
two_peers a = record (peers a) { state = if ltb a 2 then connected else disconnected }

two_peers-Listed : Listed (λ a. a + 5) (two_peers, (5, 5) ∷ (6, 6) ∷ [])
unfolding lookup is_connected
two_peers-Listed = record { sockets = λ a. refl; entries = λ a. ground arith }

abbrev rounds_of_echo : List (Answers (Map ℕ ℕ))
rounds_of_echo =
    record {
      wait = ready events;
      io = sends_hi;
      callbacks = λ a. entered (handle_message (wrote 3) 1);
    }
    ∷ []

rounds-Listed_example :
    Listed (λ a. a + 5) (rounds rounds_of_echo poller channels (two_peers, (5, 5) ∷ (6, 6) ∷ [])).2
rounds-Listed_example =
    rounds-Listed (λ a. a + 5) rounds_of_echo poller channels (two_peers, (5, 5) ∷ (6, 6) ∷ [])
      (λ a. (handle_message (wrote 3) 1, refl, echo-Stays), tt) (λ a b e. omega (arith, e))
      two_peers-Listed
