-- ===== src/Tests/Clients.antt =====
-- The clients of a sub-reactor: src/main.cpp and src/network/reactor.cpp at concrete inputs.
use mathlib.Core.List.{map}
use order_engine.Prelude.{ℕ, ◌∷◌, [], List, ◌≡◌, refl, none, All, codes, arith}
use order_engine.Application.Echo.{Exchange, IsEchoing}
use order_engine.Application.Rounds.{Turn, Undisturbed, seen, answers, rounds-IsEchoing}
use order_engine.Channel
use order_engine.Channel.{hung_up, failed, readable, writable, handle_event}
use order_engine.Connection.{disconnected, received, wrote, eagain, is_connected, close_connection}
use order_engine.Poller.Poll.{named, poll}
use order_engine.Session.{callbacks, dispatch}
use order_engine.Session.Round.{rounds, round, times, dispatch_active}
use order_engine.Tests.Round.{channels, peers, poller}

abbrev says : List ℕ → ℕ → ℕ → Exchange
says text taken reply = record {
  outcome = record {
    revents = 0;
    read = received text;
    written = wrote taken;
    stale = eagain;
    now = 101;
  };
  reply = reply;
}

-- The client at 7 sends two messages, and of the second answer the rest is written when there is
-- room. The one at 9 is hung up, and then not heard of.
abbrev turns : List Turn
turns =
    record {
      events = record { events = 1; ptr = 7 } ∷ record { events = 0x10; ptr = 9 } ∷ [];
      exchanges = λ a. says (codes "hi") 1 8;
    }
    ∷ record {
      events = record { events = 1; ptr = 7 } ∷ [];
      exchanges = λ a. says (codes "ho") 1 2;
    }
    ∷ record { events = record { events = 4; ptr = 7 } ∷ []; exchanges = λ a. says (codes "-") 6 0 }
    ∷ []

undisturbed : All (λ t. Undisturbed (times 7 (named t.events)) (seen 7 t)) turns
unfolding hung_up failed
undisturbed = (
  record { stays = refl; works = refl; reads = omega arith; drains = omega arith },
  (
    record { stays = refl; works = refl; reads = omega arith; drains = omega arith },
    (record { stays = refl; works = refl; reads = omega arith; drains = omega arith }, tt),
  ),
)

silent : IsEchoing [] (peers 7)
unfolding is_connected
silent = record { connected = refl; emptied = refl; sent = refl }

rounds-IsEchoing_example :
    IsEchoing
      (codes "Echo: hiEcho: ho")
      ((rounds {W = ℕ} (map (answers none) turns) poller channels (peers, 0)).2.0 7)
unfolding readable
rounds-IsEchoing_example =
    rounds-IsEchoing none 7 turns [] poller channels (peers, 0) undisturbed silent

-- In the same rounds the client at 9 was closed.
closes :
    ((rounds {W = ℕ} (map (answers none) turns) poller channels (peers, 0)).2.0 9).state
    ≡ disconnected
unfolding rounds round poll dispatch_active dispatch callbacks Channel.create handle_event hung_up
    failed readable writable is_connected close_connection
closes = refl
