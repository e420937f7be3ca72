-- ===== src/Server/Accepting.antt =====
-- The start of the server and the connections that it accepts (src/network/tcp_server.cpp).
use order_engine.Prelude.{
  ℕ, zero, suc, ◌+◌, ◌%◌, ◌^◌, ◌<◌, ◌≤◌, ◌≡◌, refl, ◌∙◌, Bool, true, false, some, List, [], ◌∷◌,
  ◌==◌, if◌then◌else◌, ◌>>=◌, length, All, lookup, nat_eq, lookup-insert, arith, Bool-cases, inl,
  inr, subst, ==_iff,
}
use order_engine.Reactor.{Eventfd, run_in_loop, is_in_loop_thread}
use order_engine.Connection.{Connection}
use order_engine.Server.{
  TcpServer, Accepted, accepted, again, interrupted, accept_failed, reactor_index, get_elem?,
  handle_new_connection, accept_connection, new_connection, index_of, assign,
}
use order_engine.Server.Elements.{get_elem?-lt, get_elem?-set_elem, length-set_elem}

-- The descriptors that `accept4` gave before the loop ends.
abbrev pub accepted_of : List Accepted → List ℕ
accepted_of [] = []
accepted_of (accepted fd ∷ xs) = fd ∷ accepted_of xs
accepted_of (interrupted ∷ xs) = accepted_of xs
accepted_of (_ ∷ xs) = []

-- `accept4` answers at some time that it has no more, or fails.
abbrev pub ends : List Accepted → Bool
ends [] = false
ends (accepted fd ∷ xs) = ends xs
ends (interrupted ∷ xs) = ends xs
ends (_ ∷ xs) = true

module _ {F : Eventfd} where
  -- The server has a reactor for every thread.
  abbrev pub IsReady : TcpServer F → Type 0
  IsReady s = (0 < s.thread_num) × (length s.sub_reactors ≡ s.thread_num)

  abbrev pub IsRegistered : TcpServer F → ℕ → Type 0
  IsRegistered s fd = (c : Connection) × (lookup fd s.connections ≡ some c)

  -- What one new connection changes.
  abbrev pub Assigned : ℕ → ℕ → TcpServer F → TcpServer F → Type 0
  Assigned me connfd s s' =
      IsReady s'
      × (s'.next_reactor ≡ s.next_reactor + 1)
      × IsRegistered s' connfd
      × ((fd : ℕ) → (connfd == fd) ≡ false → lookup fd s'.connections ≡ lookup fd s.connections)
      × ((i : ℕ)
          → get_elem? s'.sub_reactors i ≡ (
              get_elem? s.sub_reactors i >>= λ r. some (
                if s.next_reactor % s.thread_num == i
                then run_in_loop (λ fd. []) me connfd r
                else r)))
      × (s'.thread_num ≡ s.thread_num)

  pub reactor_index-eq :
      (s : TcpServer F)
      → 0 < s.thread_num
      → s.next_reactor < 2 ^ 31
      → reactor_index s ≡ some (s.next_reactor % s.thread_num)
  unfolding reactor_index
  reactor_index-eq s h k = cases s.thread_num h
    where
      cases : (n : ℕ) → 0 < n → index_of s.next_reactor n ≡ some (s.next_reactor % n)
      cases zero h = absurd (omega arith)
      cases (suc n) h = ground arith

  -- A new connection goes to the next reactor in turn, which is told to set it up, and is entered
  -- under its descriptor. No other reactor and no other entry changes, and the turn moves on; if
  -- the server has a reactor for every thread and has accepted fewer than 2^31 connections.
  pub handle_new_connection-Assigned :
      (me now connfd : ℕ) (s : TcpServer F)
      → IsReady s
      → s.next_reactor < 2 ^ 31
      → (s' : TcpServer F) × (handle_new_connection me now connfd s ≡ some s')
        × Assigned me connfd s s'
  unfolding handle_new_connection
  handle_new_connection-Assigned me now connfd s (many, all) small =
      let i = s.next_reactor % s.thread_num in
      let bound : i < length s.sub_reactors = omega arith in
      let (r, found) = get_elem?-lt s.sub_reactors i bound in
      let c = new_connection connfd now (is_in_loop_thread me r) in
      (
        assign me now connfd i r s,
        rw (reactor_index-eq s many small, found) refl,
        (
          (many, length-set_elem s.sub_reactors i _ ∙ all),
          omega arith,
          (c, lookup-insert connfd connfd c s.connections ∙ ground arith),
          λ fd ne. lookup-insert connfd fd c s.connections ∙ rw ne refl,
          λ j. get_elem?-set_elem s.sub_reactors i j _ bound ∙ ground (arith, found),
          refl,
        ),
      )

  -- The loop of `acceptConnection` ends when `accept4` has no more, or fails; it has entered every
  -- connection that was accepted before, moved the turn on by one for each of them, and has not
  -- stopped at an interruption; if the server has a reactor for every thread, and at most 2^31
  -- connections are accepted in all.
  pub accept_connection-accepted :
      (me now : ℕ) (xs : List Accepted) (s : TcpServer F)
      → IsReady s
      → s.next_reactor + length (accepted_of xs) ≤ 2 ^ 31
      → ends xs ≡ true
      → (s' : TcpServer F) × (accept_connection me now xs s ≡ some s')
        × IsReady s'
        × (s'.next_reactor ≡ s.next_reactor + length (accepted_of xs))
        × All (IsRegistered s') (accepted_of xs)
        × ((fd : ℕ) → IsRegistered s fd → IsRegistered s' fd)
  unfolding accept_connection
  accept_connection-accepted me now [] s ready small end = absurd (cc)
  accept_connection-accepted me now (accepted fd ∷ xs) s ready small end =
      let (t, done, (ready', turn, registered, others, reactors, threads)) =
        handle_new_connection-Assigned me now fd s ready (omega arith) in
      let (u, rest, ready'', turn', all, kept) =
        accept_connection-accepted me now xs t ready' (omega arith) end in
      (
        u,
        rw done rest,
        ready'',
        omega arith,
        (kept fd registered, all),
        λ j known. kept j (elim (Bool-cases (fd == j)) [
          | inl e ↦ subst (IsRegistered t) ((==_iff fd j).0 e) registered
          | inr ne ↦ (known.0, others j ne ∙ known.1)
        ]),
      )
  accept_connection-accepted me now (interrupted ∷ xs) s ready small end =
      accept_connection-accepted me now xs s ready small end
  accept_connection-accepted me now (again ∷ xs) s ready small end =
      (s, refl, ready, omega arith, tt, λ fd known. known)
  accept_connection-accepted me now (accept_failed ∷ xs) s ready small end =
      (s, refl, ready, omega arith, tt, λ fd known. known)
