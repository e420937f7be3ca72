-- ===== src/Server/Threads/Starting.antt =====
-- All the ways in which `start` ends (src/network/tcp_server.cpp).
use order_engine.Prelude.{ℕ, suc, ◌≤◌, ◌<◌, ◌≡◌, Bool, true, false, ◌++◌, ◌==◌, if◌then◌else◌}
use order_engine.Reactor
use order_engine.Reactor.{Eventfd}
use order_engine.Server.{TcpServer, Setup, replicate}
use order_engine.Server.Stopping.{opened}
use order_engine.Server.Threads.{Threads, Return, returns, throws}

-- The thread beside `i` others is the first one that is refused, of `n + 1`.
abbrev IsRefused : (ℕ → Bool) → ℕ → ℕ → Type 0
IsRefused allows n i = (i ≤ n) × ((j : ℕ) → j < i → allows j ≡ true) × (allows i ≡ false)

module _ {F : Eventfd} (me : ℕ) (k : Setup F) (allows : ℕ → Bool) where
  -- A start of `s`, with the threads of `t`, returned true, returned false, or threw.
  abbrev pub Tried : TcpServer F → Threads F → Return × Threads F → Type 0
  Tried s t (returns true, u) =
      (u.server.running ≡ true)
      × (u.server.closed ≡ s.closed)
      × (u.reactor_threads ≡ s.thread_num)
      × (u.main_thread ≡ true)
      × (u.server.sub_reactors
          ≡ s.sub_reactors ++ replicate s.thread_num (Reactor.create k.counter me))
  Tried s t (returns false, u) =
      (u.server.running ≡ false)
      × (u.server.closed ≡ s.closed ++ opened k.socket)
      × (u.reactor_threads ≡ t.reactor_threads)
      × (u.main_thread ≡ t.main_thread)
      × (u.server.sub_reactors ≡ s.sub_reactors)
  Tried s t (throws, u) =
      (i : ℕ) × IsRefused allows s.thread_num i
      × (u.server.running ≡ (i == s.thread_num))
      × (u.server.closed ≡ s.closed)
      × (u.reactor_threads ≡ i)
      × (u.main_thread ≡ false)
      × (u.server.sub_reactors
          ≡ s.sub_reactors
            ++ replicate (if i == s.thread_num then i else suc i) (Reactor.create k.counter me))
