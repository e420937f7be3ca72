-- ===== src/Tests/Server.antt =====
-- A server that starts, accepts, and stops: src/network/tcp_server.cpp.
use order_engine.Prelude.{
  ℕ, ltb, length, Bool, ◌≡◌, refl, true, false, none, some, [], ◌∷◌, All, pos, negsuc, codes,
  bytes_eq, lookup, nat_eq, arith,
}
use order_engine.Reactor
use order_engine.Reactor.{
  Reactor, is_in_loop_thread, run_in_loop, queue_in_loop, push, wakeup, quit, set_quit,
}
use order_engine.Connection
use order_engine.Connection.{
  Connection, wrote, write_directly, keep_rest, is_connected, establish_connection, send,
}
use order_engine.Server.{
  broadcast, broadcast_to, get_connection_count, TcpServer, Setup, Left, accepted, again,
  interrupted, create, start, start_reactors, stop, close_all, reactor_index, handle_new_connection,
  accept_connection, get_elem?,
}
use order_engine.Server.Accepting.{
  Assigned, IsReady, IsRegistered, handle_new_connection-Assigned, accept_connection-accepted,
}
use order_engine.Server.Threads.{Threads, throws, try_start, start_threads, add_reactors, add_main}
use order_engine.Server.Stopping.{stop-connected, stop-start-quitting}
use order_engine.Tests.Reactor.{counter}

-- The calls of `start` succeed.
abbrev setup : Setup counter
setup = record {
  socket = some 9;
  is_valid_ip = true;
  is_bound = true;
  is_listening = true;
  counter = 0;
}

abbrev pub made : TcpServer counter
made = record {
  ip = codes "0.0.0.0";
  port = 8080;
  listen_fd = pos 9;
  thread_num = 2;
  running = true;
  next_reactor = 0;
  main_reactor = some (record {
    thread_id = 1;
    quitting = false;
    calling_pending_tasks = false;
    pending_tasks = [];
    wakeup_fd = 0;
  });
  sub_reactors = sub ∷ sub ∷ [];
  accept_channel = true;
  connections = [];
  closed = [];
}
  where
    sub : Reactor counter ℕ
    sub = record {
      thread_id = 1;
      quitting = false;
      calling_pending_tasks = false;
      pending_tasks = [];
      wakeup_fd = 0;
    }

starts : start 1 setup (create (codes "0.0.0.0") 8080 (pos 2) 4) ≡ (true, made)
unfolding create start start_reactors bytes_eq Reactor.create
starts = refl

-- The system starts one thread only.
abbrev one_thread : ℕ → Bool
one_thread i = ltb i 1

abbrev first_start : Threads counter
first_start = record {
  server = create (codes "0.0.0.0") 8080 (pos 2) 4;
  reactor_threads = 0;
  main_thread = false;
}

-- It throws, with two reactors for one thread, and does not run.
thrown_start :
    let (r, t) = try_start 1 setup one_thread first_start in
    (r ≡ throws)
    × (t.reactor_threads ≡ 1)
    × (length t.server.sub_reactors ≡ 2)
    × (t.server.running ≡ false)
unfolding try_start start_threads add_reactors add_main create start bytes_eq
thrown_start = (refl, refl, refl, refl)

handle_new_connection-Assigned_example :
    (s : TcpServer counter) × (handle_new_connection 5 100 12 made ≡ some s) × Assigned 5 12 made s
handle_new_connection-Assigned_example =
    handle_new_connection-Assigned 5 100 12 made (omega arith, refl) (omega arith)

accept_connection-accepted_example :
    (s : TcpServer counter) × (accept_connection 5 100
        (accepted 12 ∷ interrupted ∷ accepted 13 ∷ again ∷ [])
        made
      ≡ some s)
    × IsReady s
    × (s.next_reactor ≡ 2)
    × All (IsRegistered s) (12 ∷ 13 ∷ [])
    × ((fd : ℕ) → IsRegistered made fd → IsRegistered s fd)
accept_connection-accepted_example =
    accept_connection-accepted 5 100 (accepted 12 ∷ interrupted ∷ accepted 13 ∷ again ∷ []) made
      (omega arith, refl) (omega arith) refl

-- A connection that its reactor has set up.
abbrev client : Connection
client = record {
  sockfd = 12;
  state = Connection.connected;
  input_buffer = [];
  output_buffer = [];
  last_active_time = 100;
  wire = [];
}

abbrev busy : TcpServer counter
busy = record made { connections = (12, client) ∷ [] }

-- The last rounds ran every task.
abbrev pub nothing_left : Left counter
nothing_left = record {
  main = record { tasks = []; counter = 0 };
  sub = λ i. record { tasks = []; counter = 0 };
}

stop-connected_example : stop 1 nothing_left busy ≡ none
unfolding lookup is_connected
stop-connected_example = stop-connected 1 12 nothing_left client busy refl refl refl

abbrev stopped : TcpServer counter
stopped = record made {
  running = false;
  accept_channel = false;
  listen_fd = negsuc 0;
  closed = 9 ∷ [];
  main_reactor = some quitted;
  sub_reactors = quitted ∷ quitted ∷ [];
}
  where
    quitted : Reactor counter ℕ
    quitted = record {
      thread_id = 1;
      quitting = true;
      calling_pending_tasks = false;
      pending_tasks = [];
      wakeup_fd = 0;
    }

stops : stop 1 nothing_left made ≡ some stopped
unfolding stop close_all quit set_quit is_in_loop_thread
stops = refl

starts_again : (start 1 setup stopped).0 ≡ true
unfolding start start_reactors bytes_eq
starts_again = refl

stop-start-quitting_example :
    (i : ℕ) × (r : Reactor counter ℕ) × (reactor_index (start 1 setup stopped).1 ≡ some i)
    × (get_elem? (start 1 setup stopped).1.sub_reactors i ≡ some r)
    × (r.quitting ≡ true)
stop-start-quitting_example =
    stop-start-quitting 1 nothing_left setup made stopped refl (omega arith, refl) (omega arith)
      stops starts_again

-- A broadcast: one byte goes at once, the other waits.
broadcasts :
    let s = broadcast (λ fd. wrote 1) 101 (codes "hi") busy in
    (get_connection_count s ≡ 1)
    × (s.connections
        ≡ (
          12,
          record client { last_active_time = 101; wire = codes "h"; output_buffer = codes "i" },
        )
          ∷ [])
unfolding broadcast broadcast_to get_connection_count send write_directly keep_rest is_connected
broadcasts = (refl, refl)
