-- ===== src/Server/Balance.antt =====
-- How evenly the accepted connections are spread over the reactors (src/network/tcp_server.cpp).
mod Turns
use order_engine.Prelude.{
  ℕ, ◌+◌, ◌%◌, ◌^◌, ◌<◌, ◌≤◌, ◌≡◌, refl, ap, sym, Bool, true, false, Option, none, some, List, [],
  ◌∷◌, ◌==◌, if◌then◌else◌, ◌>>=◌, length, arith, subst, length-append,
}
use native.Mathlib.Nat.{mod-lt}
use order_engine.Reactor.{
  Eventfd, Reactor, run_in_loop, is_in_loop_thread, queue_in_loop, push, wakeup,
}
use order_engine.Server.{
  TcpServer, Accepted, accepted, again, interrupted, accept_failed, get_elem?, accept_connection,
}
use order_engine.Server.Elements.{get_elem?-lt}
use order_engine.Server.Accepting.{
  IsReady, Assigned, accepted_of, ends, handle_new_connection-Assigned,
}
use order_engine.Server.Balance.Turns.{
  turns, turns_apart, distance, next_turn, mod_step, turns_step, distance-lt,
}

module _ {F : Eventfd} where
  abbrev Foreign : ℕ → Option (Reactor F ℕ) → Type 0
  Foreign me none = Unit {0}
  Foreign me (some r) = is_in_loop_thread me r ≡ false

  -- No sub-reactor takes the thread `me` for its own.
  abbrev pub IsForeign : ℕ → TcpServer F → Type 0
  IsForeign me s = (i : ℕ) → Foreign me (get_elem? s.sub_reactors i)

  abbrev waiting : Option (Reactor F ℕ) → ℕ
  waiting none = 0
  waiting (some r) = length r.pending_tasks

  -- The connections that wait for the reactor `i`.
  abbrev pub load : TcpServer F → ℕ → ℕ
  load s i = waiting (get_elem? s.sub_reactors i)

  abbrev handed : Bool → ℕ → ℕ → Reactor F ℕ → Reactor F ℕ
  handed b me connfd r = if b then run_in_loop (λ fd. []) me connfd r else r

  handed-Foreign :
      (b : Bool) (me connfd : ℕ) (o : Option (Reactor F ℕ))
      → Foreign me o
      → Foreign me (o >>= λ r. some (handed b me connfd r))
  unfolding run_in_loop queue_in_loop push wakeup is_in_loop_thread
  handed-Foreign b me connfd none h = tt
  handed-Foreign false me connfd (some r) h = h
  handed-Foreign true me connfd (some r) h = ground arith

  handed-waiting :
      (b : Bool) (me connfd : ℕ) (r : Reactor F ℕ)
      → is_in_loop_thread me r ≡ false
      → length (handed b me connfd r).pending_tasks ≡ length r.pending_tasks + (if b then 1 else 0)
  unfolding run_in_loop queue_in_loop push wakeup
  handed-waiting false me connfd r h = omega arith
  handed-waiting true me connfd r h = ground (arith, length-append r.pending_tasks (connfd ∷ []))

  Assigned-IsForeign :
      (me connfd : ℕ) (s s' : TcpServer F)
      → IsForeign me s
      → Assigned me connfd s s'
      → IsForeign me s'
  Assigned-IsForeign me connfd s s' foreign (ready, turn, registered, others, reactors, threads) i =
      subst (Foreign me) (sym (reactors i)) (
        handed-Foreign (s.next_reactor % s.thread_num == i) me connfd (get_elem? s.sub_reactors i)
          (foreign i))

  Assigned-load :
      (me connfd i : ℕ) (s s' : TcpServer F)
      → IsReady s
      → i < s.thread_num
      → IsForeign me s
      → Assigned me connfd s s'
      → load s' i ≡ load s i + (if s.next_reactor % s.thread_num == i then 1 else 0)
  Assigned-load me connfd i s s' (many, all) bound foreign
        (ready, turn, registered, others, reactors, threads) =
      let (r, found) = get_elem?-lt s.sub_reactors i (omega arith) in
      rw (reactors i, found)
        (handed-waiting (s.next_reactor % s.thread_num == i) me connfd r
          (subst (Foreign me) found (foreign i)))

  -- What a reactor gets of the connections that the loop accepts.
  accept_connection-load :
      (me now i : ℕ) (xs : List Accepted) (s : TcpServer F)
      → IsReady s
      → s.next_reactor + length (accepted_of xs) ≤ 2 ^ 31
      → ends xs ≡ true
      → IsForeign me s
      → i < s.thread_num
      → (s' : TcpServer F) × (accept_connection me now xs s ≡ some s')
        × (load s' i
            ≡ load s i
              + turns s.thread_num
                  (distance s.thread_num (s.next_reactor % s.thread_num) i)
                  (length (accepted_of xs)))
  unfolding accept_connection
  accept_connection-load me now i [] s ready small end foreign bound = absurd (cc)
  accept_connection-load me now i (accepted fd ∷ xs) s ready small end foreign bound =
      let (t, done, assigned) = handle_new_connection-Assigned me now fd s ready (omega arith) in
      let (ready', turn, registered, others, reactors, threads) = assigned in
      let n = s.thread_num in
      let r = s.next_reactor % n in
      let k = length (accepted_of xs) in
      let (u, rest, loaded) =
        accept_connection-load me now i xs t ready' (omega arith) end
          (Assigned-IsForeign me fd s t foreign assigned) (omega (arith, threads)) in
      let later : load u i ≡ load t i + turns n (distance n (next_turn n r) i) k =
        rw (threads, turn, mod_step s.next_reactor n ready.0) at loaded in
      let now_one = Assigned-load me fd i s t ready bound foreign assigned in
      let step = turns_step n r i k (mod-lt s.next_reactor ready.0) bound in
      (u, rw done rest, omega (arith, later, now_one, step))
  accept_connection-load me now i (interrupted ∷ xs) s ready small end foreign bound =
      accept_connection-load me now i xs s ready small end foreign bound
  accept_connection-load me now i (again ∷ xs) s ready small end foreign bound =
      (s, refl, omega arith)
  accept_connection-load me now i (accept_failed ∷ xs) s ready small end foreign bound =
      (s, refl, omega arith)

  -- The connections that `acceptConnection` accepts are spread evenly over the reactors: of any two,
  -- neither gets two more of them than the other, as tasks in its queue; if the server has a reactor
  -- for every thread, `accept4` has no more at some time or fails, at most 2^31 connections are
  -- accepted in all, and no reactor takes the accepting thread for its own.
  pub accept_connection-balanced :
      (me now i j : ℕ) (xs : List Accepted) (s : TcpServer F)
      → IsReady s
      → s.next_reactor + length (accepted_of xs) ≤ 2 ^ 31
      → ends xs ≡ true
      → IsForeign me s
      → i < s.thread_num
      → j < s.thread_num
      → (s' : TcpServer F) × (accept_connection me now xs s ≡ some s')
        × (load s' i + load s j ≤ load s' j + load s i + 1)
  accept_connection-balanced me now i j xs s ready small end foreign first second =
      let n = s.thread_num in
      let r = s.next_reactor % n in
      let (u, done, loaded) = accept_connection-load me now i xs s ready small end foreign first in
      let (v, done', loaded') =
        accept_connection-load me now j xs s ready small end foreign second in
      let same : u ≡ v = cc in
      let less = mod-lt s.next_reactor ready.0 in
      let k = length (accepted_of xs) in
      let near : turns n (distance n r i) k ≤ turns n (distance n r j) k + 1 =
        turns_apart n (distance n r i) (distance n r j) k (distance-lt n r i less first)
          (distance-lt n r j less second) in
      (u, done, omega (arith, loaded, near, loaded', ap (λ t. load t j) same))
