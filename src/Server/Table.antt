-- ===== src/Server/Table.antt =====
-- An entry of the table of connections, from `handleNewConnection` to `removeConnection`
-- (src/network/tcp_server.cpp).
use order_engine.Prelude.{
  ℕ, ◌%◌, ◌^◌, ◌<◌, ◌≡◌, refl, ◌∙◌, Bool, true, false, none, some, Map, ◌==◌, if◌then◌else◌, lookup,
  insert, erase, nat_eq, lookup-insert, lookup-erase, arith,
}
use order_engine.Reactor.{Eventfd, is_in_loop_thread}
use order_engine.Connection
use order_engine.Connection.{Connection, is_connected, establish_connection}
use order_engine.Server.{
  TcpServer, handle_new_connection, manage, remove_connection, new_connection, assign,
}
use order_engine.Server.Accepting.{IsReady, reactor_index-eq}
use order_engine.Server.Elements.{get_elem?-lt}

new_connection-sockfd : (connfd now : ℕ) (b : Bool) → (new_connection connfd now b).sockfd ≡ connfd
unfolding Connection.create establish_connection
new_connection-sockfd connfd now true = refl
new_connection-sockfd connfd now false = refl

-- An entry made, replaced and erased.
erase-insert :
    (k k' j : ℕ) (c d : Connection) (m : Map ℕ Connection)
    → k' ≡ k
    → lookup j (erase k' (insert k d (insert k c m))) ≡ (if k == j then none else lookup j m)
erase-insert k k' j c d m e =
    lookup-erase k' j (insert k d (insert k c m))
    ∙ ground (arith, lookup-insert k j d (insert k c m), lookup-insert k j c m)

module _ {F : Eventfd} where
  -- What the server has of a descriptor once its reactor has run the task, and after its removal.
  abbrev Served : ℕ → ℕ → TcpServer F → TcpServer F → Type 0
  Served now connfd s s' =
      (c : Connection) × (lookup connfd (manage now connfd s').connections ≡ some c)
      × (c.sockfd ≡ connfd)
      × (is_connected c ≡ true)
      × ((fd : ℕ)
          → lookup fd (remove_connection c (manage now connfd s')).connections
            ≡ (if connfd == fd then none else lookup fd s.connections))

  -- A new connection is connected once its reactor has run the task, and is found under its
  -- descriptor; its removal then leaves no entry for the descriptor and the others as they were
  -- before the connection came. The server has a reactor for every thread and has accepted fewer
  -- than 2^31 connections.
  remove_connection-handle_new_connection :
      (me now connfd : ℕ) (s : TcpServer F)
      → IsReady s
      → s.next_reactor < 2 ^ 31
      → (s' : TcpServer F) × (handle_new_connection me now connfd s ≡ some s')
        × Served now connfd s s'
  unfolding handle_new_connection manage remove_connection establish_connection is_connected
  remove_connection-handle_new_connection me now connfd s (many, all) small =
      let i = s.next_reactor % s.thread_num in
      let (r, found) = get_elem?-lt s.sub_reactors i (omega arith) in
      let c = new_connection connfd now (is_in_loop_thread me r) in
      let s' = assign me now connfd i r s in
      let d = establish_connection now c in
      let at_fd : lookup connfd (insert connfd c s.connections) ≡ some c =
        lookup-insert connfd connfd c s.connections ∙ ground arith in
      let same : d.sockfd ≡ connfd = new_connection-sockfd connfd now (is_in_loop_thread me r) in
      (
        s',
        rw (reactor_index-eq s many small, found) refl,
        (
          d,
          rw at_fd (lookup-insert connfd connfd d (insert connfd c s.connections) ∙ ground arith),
          same,
          refl,
          λ fd. rw at_fd (erase-insert connfd d.sockfd fd c d s.connections same),
        ),
      )
