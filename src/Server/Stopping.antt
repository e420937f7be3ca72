-- ===== src/Server/Stopping.antt =====
-- `TcpServer::start` and `stop`, and what a second start does (src/network/tcp_server.cpp).
use order_engine.Prelude.{
  ℕ, zero, suc, ◌+◌, ◌%◌, ◌^◌, ◌<◌, ◌≡◌, ◌⊎◌, inl, inr, refl, sym, ap, ◌∙◌, subst, Bool, true,
  false, Option, none, some, List, [], ◌∷◌, ◌++◌, if◌then◌else◌, length, lookup, nat_eq, Map, pos,
  arith, >>=-eq-some, Bool-cases, append-nil, bytes_eq, codes,
}
use order_engine.Reactor
use order_engine.Reactor.{Eventfd, Reactor, quit, set_quit, wakeup}
use order_engine.Connection.{Connection, is_connected, close_connection}
use order_engine.Server.{
  TcpServer, Setup, Remains, Left, start, starts, fails, start_reactors, stop, Guarded, lock,
  remove_guarded, close_each, close_all, quit_all, reactor_index, get_elem?, replicate,
}
use order_engine.Server.Elements.{get_elem?-lt, get_elem?-append}
use order_engine.Server.Accepting.{IsReady, reactor_index-eq}

-- The descriptor that `socket` gave.
abbrev pub opened : Option ℕ → List ℕ
opened none = []
opened (some fd) = fd ∷ []

close_each-none : (m : Map ℕ Connection) → close_each m none ≡ none
unfolding close_each close_connection
close_each-none [] = refl
close_each-none ((j, d) ∷ m) = elim (Bool-cases (is_connected d)) [
  | inl on ↦ rw on (close_each-none m)
  | inr off ↦ rw off (close_each-none m)
]

-- The callback of a connected connection locks the mutex again.
close_each-connected :
    (m : Map ℕ Connection) (fd : ℕ) (c : Connection) (g : Guarded)
    → g.is_locked ≡ true
    → lookup fd m ≡ some c
    → is_connected c ≡ true
    → close_each m (some g) ≡ none
unfolding lookup close_each close_connection remove_guarded lock
close_each-connected [] fd c g locked found on = absurd (cc)
close_each-connected ((j, d) ∷ m) fd c g locked found on = elim (Bool-cases (is_connected d)) [
  | inl live ↦ rw (live, locked) (close_each-none m)
  | inr dead ↦ rw dead (close_each-connected m fd c g locked (ground (arith, found, on, dead)) on)
]

close_all-connected :
    (m : Map ℕ Connection) (fd : ℕ) (c : Connection)
    → lookup fd m ≡ some c
    → is_connected c ≡ true
    → close_all m ≡ none
unfolding close_all lock
close_all-connected m fd c found on =
    rw (close_each-connected m fd c (record { entries = m; is_locked = true }) refl found on) refl

close_all-nil : (m rest : Map ℕ Connection) → close_all m ≡ some rest → rest ≡ []
unfolding close_all lock
close_all-nil m rest h =
    let (g, closing, done) =
      >>=-eq-some (close_each m (some (record { entries = m; is_locked = true }))) _ h in
    ground (arith, done)

module _ {F : Eventfd} where
  -- A start that succeeded, or one that failed.
  abbrev Started : ℕ → Setup F → TcpServer F → Bool × TcpServer F → Type 0
  Started me k s (b, s') =
      (s'.thread_num ≡ s.thread_num)
      × (s'.next_reactor ≡ s.next_reactor)
      × (((b ≡ true)
            × (s'.running ≡ true)
            × (s'.closed ≡ s.closed)
            × (s'.sub_reactors
                ≡ s.sub_reactors ++ replicate s.thread_num (Reactor.create k.counter me)))
          ⊎ ((b ≡ false)
              × (s'.running ≡ false)
              × (s'.closed ≡ s.closed ++ opened k.socket)
              × (s'.sub_reactors ≡ s.sub_reactors)))

  -- Where the system starts every thread, a start of a server that does not run succeeds, and it
  -- runs with one more reactor for each thread; or it fails, does not run, has closed the socket if
  -- there was one, and no reactor is added. Threads has what it does where one is refused.
  pub start-Started :
      (me : ℕ) (k : Setup F) (s : TcpServer F) → s.running ≡ false → Started me k s (start me k s)
  unfolding start
  start-Started me k s off =
      subst (λ b. Started me k s (if b then (true, s) else starts me k k.socket s)) (sym off)
        (cases k.socket refl)
    where
      failed :
          (fd : ℕ)
          → k.socket ≡ some fd
          → Started me k s (fails fd (record s { listen_fd = pos fd }))
      failed fd e = (refl, refl, inr (refl, off, ap (λ o. s.closed ++ opened o) (sym e), refl))

      succeeded :
          (fd : ℕ)
          → Started me k s (true, start_reactors me k.counter (record s { listen_fd = pos fd }))
      succeeded fd = unfold start_reactors in (refl, refl, inl (refl, refl, refl, refl))

      bind_and_listen :
          (fd : ℕ) (bound listening : Bool)
          → k.socket ≡ some fd
          → Started me k s (
              if bound
              then if listening
                then (true, start_reactors me k.counter (record s { listen_fd = pos fd }))
                else fails fd (record s { listen_fd = pos fd })
              else fails fd (record s { listen_fd = pos fd }))
      bind_and_listen fd true true e = succeeded fd
      bind_and_listen fd true false e = failed fd e
      bind_and_listen fd false listening e = failed fd e

      cases : (o : Option ℕ) → k.socket ≡ o → Started me k s (starts me k o s)
      cases none e = (
        refl,
        refl,
        inr (refl, off, sym (append-nil s.closed) ∙ ap (λ o. s.closed ++ opened o) (sym e), refl),
      )
      cases (some fd) e = elim (Bool-cases (bytes_eq s.ip (codes "0.0.0.0"))) [
        | inl any ↦ rw any (bind_and_listen fd k.is_bound k.is_listening e)
        | inr one ↦ rw one (elim (Bool-cases k.is_valid_ip) [
          | inl valid ↦ rw valid (bind_and_listen fd k.is_bound k.is_listening e)
          | inr invalid ↦ rw invalid (failed fd e)
        ])
      ]

  length-quit_all :
      (me : ℕ) (left : ℕ → Remains F) (i : ℕ) (rs : List (Reactor F ℕ))
      → length (quit_all me left i rs) ≡ length rs
  length-quit_all me left i [] = refl
  length-quit_all me left i (r ∷ rs) = ap suc (length-quit_all me left (i + 1) rs)

  quit-quitting : (me : ℕ) (r : Reactor F ℕ) → (quit me r).quitting ≡ true
  unfolding quit set_quit wakeup
  quit-quitting me r = ground arith

  get_elem?-quit_all :
      (me : ℕ) (left : ℕ → Remains F) (n : ℕ) (rs : List (Reactor F ℕ)) (i : ℕ) (r : Reactor F ℕ)
      → get_elem? (quit_all me left n rs) i ≡ some r
      → r.quitting ≡ true
  get_elem?-quit_all me left n [] i r h = absurd (cc)
  get_elem?-quit_all me left n (x ∷ rs) zero r h = ground (arith, quit-quitting me x)
  get_elem?-quit_all me left n (x ∷ rs) (suc i) r h = get_elem?-quit_all me left (n + 1) rs i r h

  -- What a stop leaves.
  abbrev Stopped : ℕ → Left F → TcpServer F → TcpServer F → Type 0
  Stopped me left s s' =
      (s'.running ≡ false)
      × (s'.connections ≡ [])
      × (s'.sub_reactors ≡ quit_all me left.sub 0 s.sub_reactors)
      × (s'.thread_num ≡ s.thread_num)
      × (s'.next_reactor ≡ s.next_reactor)

  -- A stop that returns leaves a server that does not run, without connections, and with the same
  -- reactors as before, each told to quit; if the server ran.
  stop-Stopped :
      (me : ℕ) (left : Left F) (s s' : TcpServer F)
      → s.running ≡ true
      → stop me left s ≡ some s'
      → Stopped me left s s'
  unfolding stop
  stop-Stopped me left s s' on h =
      let (rest, closing, done) = >>=-eq-some (close_all s.connections) _ (simp (on) at h) in
      ground (arith, done, close_all-nil s.connections rest closing)

  -- A stop of a server that runs has no defined result while a connection is connected: in its
  -- close callback, `removeConnection` locks the mutex that the stop already holds.
  pub stop-connected :
      (me fd : ℕ) (left : Left F) (c : Connection) (s : TcpServer F)
      → s.running ≡ true
      → lookup fd s.connections ≡ some c
      → is_connected c ≡ true
      → stop me left s ≡ none
  unfolding stop
  stop-connected me fd left c s on found connected =
      ground (arith, close_all-connected s.connections fd c found connected)

  -- Where the reactors told to quit come before the others, the turn is at one of them.
  chosen-quitting :
      (me : ℕ) (left : Left F) (s t : TcpServer F) (more : List (Reactor F ℕ))
      → IsReady s
      → s.next_reactor < 2 ^ 31
      → t.thread_num ≡ s.thread_num
      → t.next_reactor ≡ s.next_reactor
      → t.sub_reactors ≡ quit_all me left.sub 0 s.sub_reactors ++ more
      → (i : ℕ) × (r : Reactor F ℕ) × (reactor_index t ≡ some i)
        × (get_elem? t.sub_reactors i ≡ some r)
        × (r.quitting ≡ true)
  chosen-quitting me left s t more (many, all) small num turn subs =
      let rs = quit_all me left.sub 0 s.sub_reactors in
      let i = t.next_reactor % t.thread_num in
      let bound : i < length rs = omega (arith, length-quit_all me left.sub 0 s.sub_reactors) in
      let (r, found) = get_elem?-lt rs i bound in
      (
        i,
        r,
        reactor_index-eq t (omega arith) (omega arith),
        ap (λ l. get_elem? l i) subs ∙ get_elem?-append rs more i bound ∙ found,
        get_elem?-quit_all me left.sub 0 s.sub_reactors i r found,
      )

  -- After a stop and a second start that succeeds, the next connection is given to a reactor that
  -- was told to quit; if the server ran, had a reactor for every thread and has accepted fewer than
  -- 2^31 connections.
  pub stop-start-quitting :
      (me : ℕ) (left : Left F) (k : Setup F) (s s1 : TcpServer F)
      → s.running ≡ true
      → IsReady s
      → s.next_reactor < 2 ^ 31
      → stop me left s ≡ some s1
      → (start me k s1).0 ≡ true
      → (i : ℕ) × (r : Reactor F ℕ) × (reactor_index (start me k s1).1 ≡ some i)
        × (get_elem? (start me k s1).1.sub_reactors i ≡ some r)
        × (r.quitting ≡ true)
  stop-start-quitting me left k s s1 on ready small stopped ok =
      let (off, none_left, subs, num, turn) = stop-Stopped me left s s1 on stopped in
      let (num', turn', outcome) = start-Started me k s1 off in
      elim outcome [
        | inl (is_true, runs, shut, more) ↦
            chosen-quitting me left s (start me k s1).1 _ ready small (num' ∙ num) (turn' ∙ turn)
              (more ∙ ap (λ l. l ++ replicate s1.thread_num (Reactor.create k.counter me)) subs)
        | inr (is_false, off_still, shut, same) ↦ absurd (cc)
      ]
