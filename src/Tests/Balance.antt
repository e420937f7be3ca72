-- ===== src/Tests/Balance.antt =====
-- Connections that the server accepts, over its reactors: src/network/tcp_server.cpp.
use order_engine.Prelude.{zero, suc, ◌≡◌, ◌+◌, ◌≤◌, refl, arith, some, List, [], ◌∷◌}
use order_engine.Reactor.{is_in_loop_thread, run_in_loop, queue_in_loop, wakeup}
use order_engine.Server.{
  TcpServer, Accepted, accepted, again, interrupted, accept_connection, handle_new_connection,
  reactor_index,
}
use order_engine.Server.Balance.{IsForeign, load, accept_connection-balanced}
use order_engine.Tests.Reactor.{counter}
use order_engine.Tests.Server.{made}

abbrev arrivals : List Accepted
arrivals = accepted 12 ∷ accepted 13 ∷ interrupted ∷ accepted 14 ∷ again ∷ []

-- The thread 1 made the reactors, the thread 5 accepts.
made-IsForeign : IsForeign 5 made
unfolding is_in_loop_thread
made-IsForeign zero = refl
made-IsForeign (suc zero) = refl
made-IsForeign (suc (suc i)) = tt

accept_connection-balanced_example :
    (s : TcpServer counter) × (accept_connection 5 100 arrivals made ≡ some s)
    × (load s 0 + load made 1 ≤ load s 1 + load made 0 + 1)
accept_connection-balanced_example =
    accept_connection-balanced 5 100 0 1 arrivals made (omega arith, refl) (omega arith) refl
      made-IsForeign (omega arith) (omega arith)

-- The first reactor has two of the three connections.
loads :
    (s : TcpServer counter) × (accept_connection 5 100 arrivals made ≡ some s)
    × (load s 0 ≡ 2)
    × (load s 1 ≡ 1)
unfolding accept_connection handle_new_connection reactor_index run_in_loop is_in_loop_thread
    queue_in_loop wakeup
loads = (_, refl, refl, refl)
