-- ===== src/Application/Failure.antt =====
-- `main` of src/main.cpp with its handler: what the program ends with where the system may refuse a
-- thread to the server. `allows i` says whether it starts a thread beside `i` others. `none` is a
-- program that does not return, or undefined behaviour.
pub mod Ends
use order_engine.Prelude.{
  ℕ, ◌≤◌, ◌<◌, ◌≡◌, refl, ap, sym, ◌∙◌, Bool, true, false, Option, none, some, [], ◌==◌,
  if◌then◌else◌, ◌>>=◌, Bytes, pos, Bool-cases, inl, inr, arith,
}
use order_engine.Config.{Config, Files, empty, load}
use order_engine.Reactor.{Eventfd}
use order_engine.Server
use order_engine.Server.{TcpServer, Setup, Left, start, start_reactors}
use order_engine.Server.Threads.{Threads, End, exits, terminates, listening, start_threads, unwind}
use order_engine.Server.Threads.Refused.{fate, start_threads-refused, start_threads-start_reactors}
use order_engine.Application.{
  Application, create, initialize, initialized, run_started, server_of, main, run, run_server,
  exit_of_run,
}

module _ {F : Eventfd} where
  -- `run()` once `start` returned.
  abbrev pub run_to_end : ℕ → Left F → Option ℕ → Bool × TcpServer F → Application F → Option End
  run_to_end me left stops o app = do app' ← run_started me left stops o app; some (exits 0)

  abbrev pub run_threads : ℕ → Left F → Option ℕ → Bool × Threads F → Application F → Option End
  run_threads me left stops (false, t) app = unwind me left t
  run_threads me left stops (true, t) app = run_to_end me left stops (true, t.server) app

  -- `run()` in the `try` of `main`; up to its reactors, `start` throws nothing.
  unfoldable pub try_run :
      ℕ → Left F → Setup F → (ℕ → Bool) → Option ℕ → TcpServer F → Application F → Option End
  try_run me left k allows stops s app =
      if s.running
      then run_to_end me left stops (start me k s) app
      else if (start me k s).0
      then run_threads me left stops (start_threads me k.counter allows (listening k.socket s)) app
      else run_to_end me left stops (start me k s) app

  abbrev pub try_server :
      ℕ
      → Left F
      → Setup F
      → (ℕ → Bool)
      → Option ℕ
      → Option (TcpServer F)
      → Application F
      → Option End
  try_server me left k allows stops none app = none
  try_server me left k allows stops (some s) app = try_run me left k allows stops s app

  abbrev pub try_initialized :
      ℕ → Left F → Setup F → (ℕ → Bool) → Option ℕ → Bool × Application F → Option End
  try_initialized me left k allows stops (false, app) = some (exits 1)
  try_initialized me left k allows stops (true, app) =
      try_server me left k allows stops app.tcp_server app

  unfoldable pub try_main :
      (argc : ℕ)
      → Bool
      → Files
      → ℕ
      → Bytes
      → ℕ
      → Left F
      → Setup F
      → (ℕ → Bool)
      → Option ℕ
      → Option End
  unfolding create
  try_main argc logs files hardware file me left k allows stops =
      if argc == 2
      then try_initialized me left k allows stops (initialize logs files hardware file create)
      else some (exits 1)
