-- ===== src/Tests/Acceptor.antt =====
-- The accepting channel: src/network/tcp_server.cpp at concrete inputs.
use order_engine.Prelude.{
  ◌+◌, ◌≡◌, refl, arith, none, some, [], if◌then◌else◌, ◌==◌, nat_eq, lookup,
}
use order_engine.Channel.{read_event}
use order_engine.Server.Acceptor.{Acceptor, open_acceptor, close_acceptor}
use order_engine.Server.Acceptor.Threads.{close-open_acceptor}
use order_engine.Tests.Epoll.{memory, memory-IsEpoll}

-- A `stop` in the thread 8 of a server that the thread 7 started.
close-open_acceptor_example :
    (a a' : Acceptor memory) × (open_acceptor 7 (some 4) [] 500 (λ i. i + 100) (λ i. i + 10) 3
      ≡ some a)
    × (memory.interest a.world.poller.kernel 3 ≡ some (record { events = read_event; ptr = 101 }))
    × (close_acceptor 8 a ≡ (if 7 == 8 then some a' else none))
    × (memory.interest a'.world.poller.kernel 3 ≡ none)
unfolding lookup
close-open_acceptor_example =
    close-open_acceptor memory-IsEpoll 7 8 4 3 500 [] (λ i. i + 100) (λ i. i + 10) (λ j. refl)
      (λ i j e. ground (arith, e))
