-- ===== src/Application/Failure/Ends.antt =====
-- How the program ends where a thread is refused, and where none is (src/main.cpp).
use order_engine.Prelude.{
  ℕ, ◌≤◌, ◌<◌, ◌≡◌, refl, ap, sym, ◌∙◌, Bool, true, false, Option, none, some, [], ◌==◌, ◌>>=◌,
  Bytes, Bool-cases, inl, inr, arith,
}
use order_engine.Config.{Config, Files, empty, load}
use order_engine.Reactor.{Eventfd}
use order_engine.Server
use order_engine.Server.{TcpServer, Setup, Left, start, start_reactors}
use order_engine.Server.Threads.{Threads, exits, start_threads, unwind}
use order_engine.Server.Threads.Refused.{fate, start_threads-refused, start_threads-start_reactors}
use order_engine.Application.{
  Application, create, initialize, initialized, run_started, server_of, main, run, run_server,
  exit_of_run,
}
use order_engine.Application.Failure.{
  run_to_end, run_threads, listening, try_run, try_server, try_initialized, try_main,
}

module _ {F : Eventfd} where
  made :
      (hardware : ℕ) (l : Config × Bool) (app : Application F) (s : TcpServer F)
      → initialized hardware l create ≡ (true, app)
      → app.tcp_server ≡ some s
      → s ≡ server_of l.0 hardware
  made hardware (c, false) app s e h = absurd (cc)
  made hardware (c, true) app s e h =
      let same : some (server_of c hardware) ≡ some s = ap (λ o. o.1.tcp_server) e ∙ h in cc

  run_threads-thrown :
      (me : ℕ) (left : Left F) (stops : Option ℕ) (o : Bool × Threads F) (app : Application F)
      → o.0 ≡ false
      → run_threads me left stops o app ≡ unwind me left o.1
  run_threads-thrown me left stops (false, t) app e = refl
  run_threads-thrown me left stops (true, t) app e = absurd (cc)

  try_run-refused :
      (me : ℕ) (left : Left F) (k : Setup F) (allows : ℕ → Bool) (stops : Option ℕ)
      (s : TcpServer F) (app : Application F) (i : ℕ)
      → s.running ≡ false
      → s.connections ≡ []
      → (start me k s).0 ≡ true
      → i ≤ s.thread_num
      → ((j : ℕ) → j < i → allows j ≡ true)
      → allows i ≡ false
      → try_run me left k allows stops s app ≡ some (fate i s.thread_num)
  unfolding try_run
  try_run-refused me left k allows stops s app i idle none_open ok less allowed refused =
      simp (ok, idle) (with_socket k.socket)
    where
      with_socket :
          (o : Option ℕ)
          → run_threads me left stops (start_threads me k.counter allows (listening o s)) app
            ≡ some (fate i s.thread_num)
      with_socket none =
          let (thrown, ends) =
            start_threads-refused me left k.counter allows s i idle none_open less allowed
              refused in
          run_threads-thrown me left stops (start_threads me k.counter allows s) app thrown ∙ ends
      with_socket (some fd) =
          let t = listening (some fd) s in
          let (thrown, ends) =
            start_threads-refused me left k.counter allows t i idle none_open less allowed
              refused in
          run_threads-thrown me left stops (start_threads me k.counter allows t) app thrown ∙ ends

  -- The program ends with the exit code 1 where the first thread is refused or only that of the main
  -- reactor; where any other is refused it is terminated, since the threads before it are destroyed
  -- without a join; if the initialization made the server and `start` gets as far as the reactors.
  pub try_main-refused :
      (files : Files) (hardware : ℕ) (file : Bytes) (me : ℕ) (left : Left F) (k : Setup F)
      (allows : ℕ → Bool) (stops : Option ℕ) (app : Application F) (s : TcpServer F) (i : ℕ)
      → initialize true files hardware file create ≡ (true, app)
      → app.tcp_server ≡ some s
      → (start me k s).0 ≡ true
      → i ≤ s.thread_num
      → ((j : ℕ) → j < i → allows j ≡ true)
      → allows i ≡ false
      → try_main 2 true files hardware file me left k allows stops ≡ some (fate i s.thread_num)
  unfolding try_main Server.create
  try_main-refused files hardware file me left k allows stops app s i init is_s ok less allowed
        refused =
      let same = made hardware (load files empty file) app s (unfold initialize in init) is_s in
      simp (init, is_s)
        (try_run-refused me left k allows stops s app i (rw same refl) (rw same refl) ok less
          allowed refused)

  start-listening :
      (me : ℕ) (k : Setup F) (s : TcpServer F)
      → s.running ≡ false
      → (start me k s).0 ≡ true
      → start me k s ≡ (true, start_reactors me k.counter (listening k.socket s))
  unfolding start
  start-listening me k s idle ok = ground arith

  try_run-allowed :
      (me : ℕ) (left : Left F) (k : Setup F) (allows : ℕ → Bool) (stops : Option ℕ)
      (s : TcpServer F) (app : Application F)
      → ((j : ℕ) → allows j ≡ true)
      → try_run me left k allows stops s app ≡ run_to_end me left stops (start me k s) app
  unfolding try_run
  try_run-allowed me left k allows stops s app all = elim (Bool-cases s.running) [
    | inl on ↦ simp on refl
    | inr off ↦ elim (Bool-cases (start me k s).0) [
      | inl ok ↦
          let t = listening k.socket s in
          simp (ok, off)
            (ap (λ o. run_threads me left stops o app)
                (start_threads-start_reactors me k.counter allows t (λ j l. all j))
              ∙ ap (λ o. run_to_end me left stops o app) (sym (start-listening me k s off ok)))
      | inr fails ↦ simp (fails, off) refl
    ]
  ]

  -- Where the system refuses no thread, the program ends with the exit code of `main` as it is
  -- modelled without exceptions.
  try_main-main :
      (argc : ℕ) (logs : Bool) (files : Files) (hardware : ℕ) (file : Bytes) (me : ℕ)
      (left : Left F) (k : Setup F) (allows : ℕ → Bool) (stops : Option ℕ)
      → ((j : ℕ) → allows j ≡ true)
      → try_main argc logs files hardware file me left k allows stops
        ≡ (do n ← main argc logs files hardware file me left k stops; some (exits n))
  unfolding try_main main run
  try_main-main argc logs files hardware file me left k allows stops all =
      elim (Bool-cases (argc == 2)) [
        | inl two ↦ rw two (after (initialize logs files hardware file create))
        | inr other ↦ rw other refl
      ]
    where
      with_code :
          (r : Option (Application F))
          → (r >>= λ _. some (exits 0)) ≡ ((r >>= λ _. some 0) >>= λ n. some (exits n))
      with_code none = refl
      with_code (some app) = refl

      served :
          (o : Option (TcpServer F)) (app : Application F)
          → try_server me left k allows stops o app
            ≡ ((run_server me left k stops o app >>= λ _. some 0) >>= λ n. some (exits n))
      served none app = refl
      served (some s) app =
          try_run-allowed me left k allows stops s app all
          ∙ with_code (run_started me left stops (start me k s) app)

      after :
          (o : Bool × Application F)
          → try_initialized me left k allows stops o
            ≡ (exit_of_run me left k stops o >>= λ n. some (exits n))
      after (false, app) = refl
      after (true, app) = served app.tcp_server app
