-- ===== src/Server/Threads.antt =====
-- The threads of a server: the end of `start`, and `~TcpServer()`, of src/network/tcp_server.cpp,
-- where the system may refuse a thread and `std::thread` then throws. Assertions are off, and the
-- joins return: that the loops end is the reactors' matter.
pub mod Refused
pub mod Starting
use order_engine.Prelude.{
  ℕ, zero, suc, ◌+◌, Bool, true, false, Option, none, some, [], ◌∷◌, ◌++◌, ◌==◌, if◌then◌else◌,
  ◌>>=◌, ◌||◌, not, pos, ℤ,
}
use order_engine.Reactor
use order_engine.Reactor.{Eventfd}
use order_engine.Server.{TcpServer, Setup, Left, start, stop}

-- A server with its joinable threads: how many `reactor_threads_` has, and whether `main_thread_`
-- is one.
pub record Threads (F : Eventfd) : Type 0 where
  pub server : TcpServer F
  pub reactor_threads : ℕ
  pub main_thread : Bool

-- What a call does: it returns, or it throws.
pub data Return : Type 0 where
  returns : Bool → Return
  throws : Return

-- How a program ends: with an exit code, or in `std::terminate`.
pub data End : Type 0 where
  exits : ℕ → End
  terminates : End

module _ {F : Eventfd} where
  -- The loop of `start` that makes the sub-reactors, in the thread `me`; `allows i` says whether
  -- the system starts a thread beside `i` others. The Boolean is false where an exception is thrown.
  unfoldable pub add_reactors : ℕ → F.Counter → (ℕ → Bool) → ℕ → Threads F → Bool × Threads F
  unfolding Reactor.create
  add_reactors me counter allows zero t = (true, t)
  add_reactors me counter allows (suc n) t =
      let reactors = t.server.sub_reactors ++ Reactor.create counter me ∷ [] in
      let pushed = record t { server = (record t.server { sub_reactors = reactors }) } in
      let started = record pushed { reactor_threads = t.reactor_threads + 1 } in
      let rest = add_reactors me counter allows n started in
      if allows t.reactor_threads then rest else (false, pushed)

  -- The accepting channel, and the thread of the main reactor.
  unfoldable pub add_main : (ℕ → Bool) → Bool × Threads F → Bool × Threads F
  add_main allows (false, t) = (false, t)
  add_main allows (true, t) =
      let u = record t { server = (record t.server { accept_channel = true; running = true }) } in
      if allows t.reactor_threads then (true, record u { main_thread = true }) else (false, u)

  -- With the main reactor only.
  abbrev pub with_main : ℕ → F.Counter → TcpServer F → Threads F
  with_main me counter s = record {
    server = record s { main_reactor = some (Reactor.create counter me) };
    reactor_threads = 0;
    main_thread = false;
  }

  -- The reactors, the channel and the threads of `start`.
  unfoldable pub start_threads : ℕ → F.Counter → (ℕ → Bool) → TcpServer F → Bool × Threads F
  start_threads me counter allows s =
      add_main allows (add_reactors me counter allows s.thread_num (with_main me counter s))

  -- The server once `socket` returned.
  abbrev pub listening : Option ℕ → TcpServer F → TcpServer F
  listening none s = s
  listening (some fd) s = record s { listen_fd = pos fd }

  abbrev pub returned : Bool × Threads F → Return × Threads F
  returned (true, t) = (returns true, t)
  returned (false, t) = (throws, t)

  -- `start`, whose calls up to the reactors throw nothing.
  unfoldable pub try_start : ℕ → Setup F → (ℕ → Bool) → Threads F → Return × Threads F
  unfolding start_threads
  try_start me k allows t =
      if t.server.running
      then (returns true, t)
      else if (start me k t.server).0
      then returned (start_threads me k.counter allows (listening k.socket t.server))
      else (returns false, record t { server = (start me k t.server).1 })

  -- `stop` joins the threads of a running server.
  unfoldable pub stop_threads : ℕ → Left F → Threads F → Option (Threads F)
  stop_threads me left t = do
    s ← stop me left t.server
    some (
        if t.server.running
        then record { server = s; reactor_threads = 0; main_thread = false }
        else record t { server = s })

  -- The destructors of the members, after `~TcpServer()` itself: that of a joinable thread calls
  -- `std::terminate`.
  unfoldable pub is_joinable : Threads F → Bool
  is_joinable t = t.main_thread || not (t.reactor_threads == 0)

  -- An exception that leaves `start` and is caught in `main`.
  unfoldable pub unwind : ℕ → Left F → Threads F → Option End
  unwind me left t = do
    t' ← stop_threads me left t
    some (if is_joinable t' then terminates else exits 1)
