-- ===== src/Server.antt =====
-- `TcpServer` of include/network/tcp_server.h and src/network/tcp_server.cpp. What the system calls
-- return, the processors and the calling thread are arguments. A task of a sub-reactor is the
-- descriptor of the connection that it sets up. `closed` lists the descriptors passed to `close`.
-- `none` is undefined behaviour: a division by zero, an index out of range, a mutex locked twice.
-- The registration of the accepting channel with its reactor, which Registry models, is a flag here.
pub mod Elements
pub mod Accepting
pub mod Balance
pub mod Table
pub mod Stopping
pub mod Race
pub mod Owners
pub mod Acceptor
pub mod Threads
use order_engine.Prelude.{
  ℕ, zero, suc, ◌+◌, ◌-◌, ◌%◌, ◌^◌, Bool, true, false, Option, none, some, List, [], ◌∷◌, ◌++◌,
  ◌==◌, if◌then◌else◌, ◌>>=◌, ltb, length, ℤ, pos, negsuc, Bytes, bytes_eq, codes, Map, lookup,
  insert, nat_eq, erase,
}
use order_engine.Reactor
use order_engine.Reactor.{Eventfd, Reactor, is_in_loop_thread, run_in_loop, quit}
use order_engine.Connection
use order_engine.Connection.{
  Connection, Handlers, Written, is_connected, establish_connection, close_connection, send,
}

abbrev pub get_elem? : {A : Type 0} → List A → ℕ → Option A
get_elem? [] i = none
get_elem? (x ∷ xs) zero = some x
get_elem? (x ∷ xs) (suc i) = get_elem? xs i

abbrev pub set_elem : {A : Type 0} → ℕ → A → List A → List A
set_elem i a [] = []
set_elem zero a (x ∷ xs) = a ∷ xs
set_elem (suc i) a (x ∷ xs) = x ∷ set_elem i a xs

abbrev pub replicate : {A : Type 0} → ℕ → A → List A
replicate zero a = []
replicate (suc n) a = a ∷ replicate n a

-- `next_reactor` is the bit pattern of `next_reactor_`.
pub record TcpServer (F : Eventfd) : Type 0 where
  pub ip : Bytes
  pub port : ℕ
  pub listen_fd : ℤ
  pub thread_num : ℕ
  pub running : Bool
  pub next_reactor : ℕ
  pub main_reactor : Option (Reactor F ℕ)
  pub sub_reactors : List (Reactor F ℕ)
  pub accept_channel : Bool
  pub connections : Map ℕ Connection
  pub closed : List ℕ

-- What the calls of `start` return, and a new eventfd.
pub record Setup (F : Eventfd) : Type 0 where
  pub socket : Option ℕ
  pub is_valid_ip : Bool
  pub is_bound : Bool
  pub is_listening : Bool
  pub counter : F.Counter

-- What the last round of a reactor's loop leaves in its queue and its eventfd.
pub record Remains (F : Eventfd) : Type 0 where
  pub tasks : List ℕ
  pub counter : F.Counter

-- For each reactor of a server, the sub-reactors by their indices.
pub record Left (F : Eventfd) : Type 0 where
  pub main : Remains F
  pub sub : ℕ → Remains F

-- What `accept4` returns.
pub data Accepted : Type 0 where
  accepted : ℕ → Accepted
  again interrupted accept_failed : Accepted

-- `thread_num <= 0 ? hardware_concurrency() : thread_num`
abbrev threads_of : ℤ → ℕ → ℕ
threads_of (pos zero) hardware = hardware
threads_of (pos (suc n)) hardware = suc n
threads_of (negsuc n) hardware = hardware

-- The `int` % the positive `int`, as an index: a negative one is out of range.
abbrev pub index_of : ℕ → ℕ → Option ℕ
index_of pattern zero = none
index_of pattern (suc n) =
    if ltb pattern (2 ^ 31)
    then some (pattern % suc n)
    else if (2 ^ 32 - pattern) % suc n == 0
    then some 0
    else none

-- `connections_`, and whether its mutex is locked.
pub record Guarded : Type 0 where
  pub entries : Map ℕ Connection
  pub is_locked : Bool

-- A `std::lock_guard` in the thread of the stop: that thread must not have the mutex already.
unfoldable pub lock : Guarded → Option Guarded
lock g = if g.is_locked then none else some (record g { is_locked = true })

-- `removeConnection`
unfoldable pub remove_guarded : Connection → Guarded → Option Guarded
remove_guarded c g = do
  g' ← lock g
  some (record { entries = erase c.sockfd g'.entries; is_locked = false })

-- The close callback that `handleNewConnection` sets, on a table for which all has gone well so far.
abbrev pub removing : Handlers (Option Guarded)
removing = record {
  message_callback = none;
  close_callback = some (λ (c, o). (c, o >>= λ g. remove_guarded c g));
}

-- `closeConnection()` on one connection after the other.
unfoldable pub close_each : Map ℕ Connection → Option Guarded → Option Guarded
unfolding remove_guarded
close_each [] o = o
close_each ((fd, c) ∷ m) o = let (c', o') = close_connection removing (c, o) in close_each m o'

-- The end of `stop`: under the mutex, every connection is closed, and then the table cleared.
unfoldable pub close_all : Map ℕ Connection → Option (Map ℕ Connection)
unfolding close_each lock
close_all m = do
  g ← lock (record { entries = m; is_locked = false })
  g' ← close_each m (some g)
  some []

-- The connection once the task in its reactor ran at once, or before it ran.
abbrev new_connection : ℕ → ℕ → Bool → Connection
new_connection connfd now at_once =
    if at_once
    then establish_connection now (Connection.create connfd now)
    else Connection.create connfd now

abbrev deliver : Written → ℕ → Bytes → Connection → Connection
deliver w now message c = if is_connected c then (send w now c message).0 else c

-- `w` says what `write` returns for each descriptor.
unfoldable pub broadcast_to : (ℕ → Written) → ℕ → Bytes → Map ℕ Connection → Map ℕ Connection
broadcast_to w now message [] = []
broadcast_to w now message ((fd, c) ∷ m) =
    (fd, deliver (w fd) now message c) ∷ broadcast_to w now message m

-- `if (listen_fd_ >= 0)` in `stop`: what is closed, and the field afterwards.
abbrev to_close : ℤ → List ℕ
to_close (pos fd) = fd ∷ []
to_close (negsuc n) = []

abbrev after_close : ℤ → ℤ
after_close (pos fd) = negsuc 0
after_close (negsuc n) = negsuc n

module _ {F : Eventfd} where
  -- `TcpServer(ip, port, thread_num)`
  unfoldable pub create : Bytes → ℕ → ℤ → ℕ → TcpServer F
  create ip port thread_num hardware = record {
    ip = ip;
    port = port;
    listen_fd = negsuc 0;
    thread_num = threads_of thread_num hardware;
    running = false;
    next_reactor = 0;
    main_reactor = none;
    sub_reactors = [];
    accept_channel = false;
    connections = [];
    closed = [];
  }

  -- `close(listen_fd_)`, which leaves the field as it is.
  abbrev fails : ℕ → TcpServer F → Bool × TcpServer F
  fails fd s = (false, record s { closed = s.closed ++ fd ∷ [] })

  -- The reactors, the channel and the threads.
  unfoldable pub start_reactors : ℕ → F.Counter → TcpServer F → TcpServer F
  unfolding Reactor.create
  start_reactors me counter s = record s {
    main_reactor = some (Reactor.create counter me);
    sub_reactors = s.sub_reactors ++ replicate s.thread_num (Reactor.create counter me);
    accept_channel = true;
    running = true;
  }

  abbrev listens : ℕ → Setup F → ℕ → TcpServer F → Bool × TcpServer F
  listens me k fd s =
      if bytes_eq s.ip (codes "0.0.0.0")
      then bind_and_listen
      else if k.is_valid_ip
      then bind_and_listen
      else fails fd s
    where
      bind_and_listen : Bool × TcpServer F
      bind_and_listen =
          if k.is_bound
          then if k.is_listening then (true, start_reactors me k.counter s) else fails fd s
          else fails fd s

  abbrev starts : ℕ → Setup F → Option ℕ → TcpServer F → Bool × TcpServer F
  starts me k none s = (false, record s { listen_fd = negsuc 0 })
  starts me k (some fd) s = listens me k fd (record s { listen_fd = pos fd })

  -- `start`, where the system starts every thread: what it does else is `try_start` of Threads.
  unfoldable pub start : ℕ → Setup F → TcpServer F → Bool × TcpServer F
  start me k s = if s.running then (true, s) else starts me k k.socket s

  -- `quit()`, and the end of the loop's thread.
  abbrev joined : ℕ → Remains F → Reactor F ℕ → Reactor F ℕ
  joined me left r = record (quit me r) { pending_tasks = left.tasks; wakeup_fd = left.counter }

  -- The sub-reactors from the index `i` on.
  abbrev pub quit_all : ℕ → (ℕ → Remains F) → ℕ → List (Reactor F ℕ) → List (Reactor F ℕ)
  quit_all me left i [] = []
  quit_all me left i (r ∷ rs) = joined me (left i) r ∷ quit_all me left (i + 1) rs

  abbrev quit_main : ℕ → Remains F → Option (Reactor F ℕ) → Option (Reactor F ℕ)
  quit_main me left none = none
  quit_main me left (some r) = some (joined me left r)

  -- The joins return: that the loops end is the reactors' matter. `connections` are those that are
  -- there when they have ended. Which thread may call it, by the assertion in `disableAll` and in
  -- `remove` of the accepting channel, is in Acceptor.
  unfoldable pub stop : ℕ → Left F → TcpServer F → Option (TcpServer F)
  stop me left s =
      let stopped = record s {
        running = false;
        accept_channel = false;
        listen_fd = after_close s.listen_fd;
        closed = s.closed ++ to_close s.listen_fd;
        main_reactor = quit_main me left.main s.main_reactor;
        sub_reactors = quit_all me left.sub 0 s.sub_reactors;
      } in
      let closing = close_all s.connections in
      if s.running
      then (do rest ← closing; some (record stopped { connections = rest }))
      else some s

  -- `next_reactor_.fetch_add(1) % thread_num_`
  unfoldable pub reactor_index : TcpServer F → Option ℕ
  reactor_index s = index_of s.next_reactor s.thread_num

  -- The connection is handed to the reactor `r` of the index `i`.
  abbrev pub assign : ℕ → ℕ → ℕ → ℕ → Reactor F ℕ → TcpServer F → TcpServer F
  assign me now connfd i r s = record s {
    next_reactor = (s.next_reactor + 1) % 2 ^ 32;
    sub_reactors = set_elem i (run_in_loop (λ fd. []) me connfd r) s.sub_reactors;
    connections = insert connfd (new_connection connfd now (is_in_loop_thread me r)) s.connections;
  }

  unfoldable pub handle_new_connection : ℕ → ℕ → ℕ → TcpServer F → Option (TcpServer F)
  handle_new_connection me now connfd s = do
    i ← reactor_index s
    r ← get_elem? s.sub_reactors i
    some (assign me now connfd i r s)

  -- The task that `handleNewConnection` queues, when its reactor runs it.
  abbrev manage_found : ℕ → ℕ → Option Connection → TcpServer F → TcpServer F
  manage_found now connfd none s = s
  manage_found now connfd (some c) s = record s {
    connections = insert connfd (establish_connection now c) s.connections;
  }

  unfoldable pub manage : ℕ → ℕ → TcpServer F → TcpServer F
  manage now connfd s = manage_found now connfd (lookup connfd s.connections) s

  -- `none` also where the answers end before the loop does.
  unfoldable pub accept_connection : ℕ → ℕ → List Accepted → TcpServer F → Option (TcpServer F)
  accept_connection me now [] s = none
  accept_connection me now (accepted fd ∷ xs) s = do
    s' ← handle_new_connection me now fd s
    accept_connection me now xs s'
  accept_connection me now (interrupted ∷ xs) s = accept_connection me now xs s
  accept_connection me now (again ∷ xs) s = some s
  accept_connection me now (accept_failed ∷ xs) s = some s

  unfoldable pub remove_connection : Connection → TcpServer F → TcpServer F
  remove_connection c s = record s { connections = erase c.sockfd s.connections }

  unfoldable pub get_connection_count : TcpServer F → ℕ
  get_connection_count s = length s.connections

  unfoldable pub broadcast : (ℕ → Written) → ℕ → Bytes → TcpServer F → TcpServer F
  unfolding broadcast_to
  broadcast w now message s = record s { connections = broadcast_to w now message s.connections }
