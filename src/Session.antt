-- ===== src/Session.antt =====
-- A connection on its channel: the callbacks that `TcpServer::handleNewConnection`
-- (src/network/tcp_server.cpp) sets, dispatched by `Channel::handleEvent` (src/network/channel.cpp)
-- in the loop of a sub-reactor (src/network/reactor.cpp).
pub mod Closing
pub mod Round
pub mod Table
use order_engine.Prelude.{ℕ, Bool, Option, none, some, List, [], ◌∷◌}
use order_engine.Channel.{Channel, Callbacks, handle_event}
use order_engine.Connection.{
  Connection, Handlers, Received, Written, Errno, handle_read, handle_write, close_connection,
}

-- What the system calls of one dispatch return, if they are made.
pub record Outcome : Type 0 where
  pub revents : ℕ
  pub read : Received
  pub written : Written
  pub stale : Errno
  pub now : ℕ

module _ {W : Type 0} where
  -- The four callbacks of a connection's channel.
  unfoldable pub callbacks : Handlers W → Outcome → Callbacks (Connection × W)
  callbacks h o = record {
    on_close = some (close_connection h);
    on_error = some (close_connection h);
    on_read = some (handle_read h o.read o.now);
    on_write = some (handle_write h o.written o.stale o.now);
  }

  -- One dispatch to the connection's channel.
  unfoldable pub dispatch : Handlers W → Channel → Outcome → Connection × W → Connection × W
  unfolding callbacks
  dispatch h ch o s = handle_event (callbacks h o) (record ch { revents = o.revents }) s

  unfoldable pub dispatch_all :
      Handlers W → Channel → List Outcome → Connection × W → Connection × W
  dispatch_all h ch [] s = s
  dispatch_all h ch (o ∷ os) s = dispatch_all h ch os (dispatch h ch o s)
