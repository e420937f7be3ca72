-- ===== src/Session/Closing.antt =====
-- The owner of a connection hears of its end once. (src/network/tcp_connection.cpp,
-- src/network/channel.cpp, src/network/tcp_server.cpp)
use order_engine.Prelude.{ℕ, List, [], ◌∷◌}
use order_engine.Channel.{Channel}
use order_engine.Channel.Dispatch.{handle_event-Keeps}
use order_engine.Connection.{Connection}
use order_engine.Connection.Lifecycle.{
  Message, counting, Stays, Once, close_connection-Once, handle_read-Once, handle_write-Once,
}
use order_engine.Session.{Outcome, callbacks, dispatch, dispatch_all}

module _ (f : Message) (stays : Stays f) (n : ℕ) where
  dispatch-Once :
      (ch : Channel) (o : Outcome) (s : Connection × ℕ)
      → Once n s
      → Once n (dispatch (counting f) ch o s)
  unfolding dispatch
  dispatch-Once ch o =
      handle_event-Keeps (Once n) (callbacks (counting f) o) _ (close_connection-Once f stays n)
        (close_connection-Once f stays n) (handle_read-Once f stays n o.read o.now)
        (handle_write-Once f stays n o.written o.stale o.now)

  -- Through any dispatches, with any events reported and any results of the system calls, an open
  -- connection stays open and its close callback is not called, or it ends disconnected and the
  -- callback was called exactly once; if the message callback neither opens nor closes it.
  pub dispatch_all-Once :
      (ch : Channel) (os : List Outcome) (s : Connection × ℕ)
      → Once n s
      → Once n (dispatch_all (counting f) ch os s)
  unfolding dispatch_all
  dispatch_all-Once ch [] s h = h
  dispatch_all-Once ch (o ∷ os) s h =
      dispatch_all-Once ch os (dispatch (counting f) ch o s) (dispatch-Once ch o s h)
