-- ===== src/Application.antt =====
-- `OrderEngineApplication` and `main` of src/main.cpp. Whether the logger could be initialised, the
-- files and what the system calls return are arguments. `printed` lists the numbers of connections
-- that `printStats` logs. `none` is a program that does not return, or undefined behaviour.
pub mod Settings
pub mod Failure
pub mod Echo
pub mod Rounds
use order_engine.Prelude.{
  ℕ, zero, suc, ◌+◌, ◌-◌, ◌%◌, ◌^◌, Bool, true, false, Option, none, some, List, [], ◌∷◌, ◌++◌,
  ◌==◌, if◌then◌else◌, ◌>>=◌, ℤ, pos, negsuc, Bytes, codes,
}
use order_engine.Config.{Config, Files, empty, load, get_string, get_int}
use order_engine.Connection.{Connection, Handlers, Written, send}
use order_engine.Reactor.{Eventfd}
use order_engine.Server
use order_engine.Server.{TcpServer, Setup, Left, start, stop, get_connection_count}

pub record Application (F : Eventfd) : Type 0 where
  pub running : Bool
  pub stats_counter : ℕ
  pub config : Config
  pub tcp_server : Option (TcpServer F)
  pub printed : List ℕ

-- The conversion of an `int` to `uint16_t`.
unfoldable pub to_port : ℤ → ℕ
to_port (pos n) = n % 2 ^ 16
to_port (negsuc n) = 2 ^ 16 - suc (n % 2 ^ 16)

-- `handleMessage`, which does not look at what `send` answers; `w` is what `write` returns.
unfoldable pub handle_message : {W : Type 0} → Written → ℕ → Connection × W → Bytes → Connection × W
handle_message w now (c, u) message = ((send w now c (codes "Echo: " ++ message)).0, u)

module _ {F : Eventfd} where
  -- `OrderEngineApplication()`
  unfoldable pub create : Application F
  create = record {
    running = true;
    stats_counter = 0;
    config = empty;
    tcp_server = none;
    printed = [];
  }

  abbrev pub server_of : Config → ℕ → TcpServer F
  server_of c hardware =
      Server.create (get_string c (codes "server.ip") (codes "0.0.0.0"))
        (to_port (get_int c (codes "server.port") (pos 8080)))
        (get_int c (codes "server.thread_num") (pos 4)) hardware

  abbrev pub initialized : ℕ → Config × Bool → Application F → Bool × Application F
  initialized hardware (c, false) app = (false, record app { config = c })
  initialized hardware (c, true) app =
      (true, record app { config = c; tcp_server = some (server_of c hardware) })

  unfoldable pub initialize : Bool → Files → ℕ → Bytes → Application F → Bool × Application F
  initialize logs files hardware file app =
      if logs then initialized hardware (load files empty file) app else (false, app)

  -- A second of the main loop.
  unfoldable pub tick : TcpServer F → Application F → Application F
  tick s app =
      let n = app.stats_counter + 1 in
      record app {
        stats_counter = n;
        printed = if n % 60 == 0 then app.printed ++ get_connection_count s ∷ [] else app.printed;
      }

  unfoldable pub ticks : ℕ → TcpServer F → Application F → Application F
  ticks zero s app = app
  ticks (suc n) s app = ticks n s (tick s app)

  -- `stop()`
  abbrev stopping : Application F → Application F
  stopping app = record app { running = false }

  -- `shutdown()`
  unfoldable pub shutdown : ℕ → Left F → TcpServer F → Application F → Option (Application F)
  shutdown me left s app = do s' ← stop me left s; some (record app { tcp_server = some s' })

  abbrev loop_and_stop :
      ℕ → Left F → Option ℕ → TcpServer F → Application F → Option (Application F)
  loop_and_stop me left none s app = none
  loop_and_stop me left (some n) s app =
      shutdown me left s (record (stopping (ticks n s app)) { tcp_server = some s })

  abbrev pub run_started :
      ℕ → Left F → Option ℕ → Bool × TcpServer F → Application F → Option (Application F)
  run_started me left stops (false, s) app = some (record app { tcp_server = some s })
  run_started me left stops (true, s) app = loop_and_stop me left stops s app

  -- `run()`, where `stops` says after how many seconds `stop()` is called, if it is.
  abbrev pub run_server :
      ℕ
      → Left F
      → Setup F
      → Option ℕ
      → Option (TcpServer F)
      → Application F
      → Option (Application F)
  run_server me left k stops none app = none
  run_server me left k stops (some s) app = run_started me left stops (start me k s) app

  unfoldable pub run : ℕ → Left F → Setup F → Option ℕ → Application F → Option (Application F)
  run me left k stops app = run_server me left k stops app.tcp_server app

  abbrev pub exit_of_run : ℕ → Left F → Setup F → Option ℕ → Bool × Application F → Option ℕ
  exit_of_run me left k stops (false, app) = some 1
  exit_of_run me left k stops (true, app) = do app' ← run me left k stops app; some 0

  -- `main`: the exit code.
  unfoldable pub main :
      (argc : ℕ) → Bool → Files → ℕ → Bytes → ℕ → Left F → Setup F → Option ℕ → Option ℕ
  unfolding create
  main argc logs files hardware file me left k stops =
      if argc == 2
      then exit_of_run me left k stops (initialize logs files hardware file create)
      else some 1
