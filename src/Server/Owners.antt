-- ===== src/Server/Owners.antt =====
-- Who owns a connection: the `std::shared_ptr`s of src/network/tcp_server.cpp and
-- src/network/tcp_connection.cpp, counted along the steps of Race and those of the tasks' vectors in
-- `doPendingTasks` of src/network/reactor.cpp. `none` is a use of a connection that was destroyed.
-- The clearing of the table in `stop` and the destruction of a reactor are no steps.
pub mod Count
pub mod Accounts
pub mod Alive
use order_engine.Prelude.{
  ℕ, zero, suc, Bool, true, false, Option, none, some, List, [], ◌∷◌, ◌++◌, if◌then◌else◌, ◌>>=◌,
  lookup, nat_eq,
}
use order_engine.Connection.{Connection, is_connected}
use order_engine.Poller.{changed}
use order_engine.Server.Race
use order_engine.Server.Race.{Client, Shared, Label, makes, enters, manages, closes, nothing}

-- `in_batch` says whether a task that ran is still in the vector of `doPendingTasks`, with its shared
-- pointer to the connection of the descriptor, `uses` counts the other ones, and `closed` lists the
-- descriptors that the destructors of connections closed.
pub record Owned : Type 0 where
  pub shared : Shared
  pub in_batch : ℕ → Bool
  pub uses : ℕ → ℕ
  pub closed : List ℕ

abbrev pub unowned : Owned
unowned = record { shared = nothing; in_batch = λ fd. false; uses = λ fd. 0; closed = [] }

abbrev pub set_uses : ℕ → ℕ → Owned → Owned
set_uses fd n o = record o { uses = changed fd n o.uses }

-- `~TcpConnection()`
abbrev pub destroy : ℕ → Owned → Owned
destroy fd o = record o { closed = o.closed ++ fd ∷ [] }

abbrev held : ℕ → ℕ → Owned → Option Owned
held zero fd o = none
held (suc n) fd o = some (set_uses fd (suc (suc n)) o)

-- A copy of a shared pointer.
unfoldable pub hold : ℕ → Owned → Option Owned
hold fd o = held (o.uses fd) fd o

abbrev released : ℕ → ℕ → Owned → Option Owned
released zero fd o = none
released (suc zero) fd o =
    some (if o.in_batch fd then set_uses fd 0 o else destroy fd (set_uses fd 0 o))
released (suc (suc n)) fd o = some (set_uses fd (suc n) o)

-- The end of a shared pointer.
unfoldable pub release : ℕ → Owned → Option Owned
release fd o = released (o.uses fd) fd o

abbrev used : ℕ → Owned → Option Owned
used zero o = none
used (suc n) o = some o

-- An access through a shared pointer.
unfoldable pub use_of : ℕ → Owned → Option Owned
use_of fd o = used (o.uses fd) o

-- The pointer that an entry of `connections_` held.
abbrev release_entry : Option ℕ → Owned → Option Owned
release_entry none o = some o
release_entry (some fd) o = release fd o

-- `close_callback_(shared_from_this())`, and `connections_.erase` in it.
unfoldable pub own_close : ℕ → Connection → Owned → Option Owned
unfolding hold release
own_close fd c o = do
  o1 ← hold fd o
  o2 ← release_entry (lookup c.sockfd o.shared.entries) o1
  release fd o2

-- The pointers that a step makes and ends.
unfoldable pub own : Label → Owned → Option Owned
unfolding hold release use_of own_close
own (makes fd now) o = hold fd (set_uses fd 1 o)
own (enters fd) o = do
  o1 ← hold fd o
  o2 ← release_entry (lookup fd o.shared.entries) o1
  release fd o2
own (manages fd now) o = do
  o1 ← hold fd o
  o2 ← hold fd o1
  o3 ← hold fd o2
  o4 ← hold fd o3
  release fd o4
own (closes fd) o = do
  u ← use_of fd o
  k ← lookup fd o.shared.clients
  if is_connected k.connection then own_close fd k.connection u else some u

-- A step of Race, or the end of the `doPendingTasks` that ran the task of a connection.
pub data Act : Type 0 where
  races : Label → Act
  ends : ℕ → Act

-- A task that runs has gone from the queue into the vector.
abbrev marks : Label → (ℕ → Bool) → ℕ → Bool
marks (manages fd now) b = changed fd true b
marks (makes fd now) b = b
marks (enters fd) b = b
marks (closes fd) b = b

-- A step, if it can be made, without the pointers.
unfoldable pub schedule : Act → Shared × (ℕ → Bool) → Option (Shared × (ℕ → Bool))
schedule (races l) (s, b) = do s' ← Race.step l s; some (s', marks l b)
schedule (ends fd) (s, b) = if b fd then some (s, changed fd false b) else none

unfoldable pub schedules : List Act → Shared × (ℕ → Bool) → Option (Shared × (ℕ → Bool))
schedules [] t = some t
schedules (a ∷ acts) t = do t' ← schedule a t; schedules acts t'

-- The pointer of the vector ends: it may be the last one.
abbrev ended : ℕ → ℕ → Owned → Owned
ended zero fd o = destroy fd o
ended (suc n) fd o = o

unfoldable pub own_act : Act → Owned → Option Owned
unfolding own
own_act (races l) o = own l o
own_act (ends fd) o = some (ended (o.uses fd) fd o)

unfoldable pub step : Act → Owned → Option Owned
unfolding own_act schedule
step a o = do
  t ← schedule a (o.shared, o.in_batch)
  o' ← own_act a (record o { in_batch = t.1 })
  some (record o' { shared = t.0; in_batch = t.1 })

unfoldable pub steps : List Act → Owned → Option Owned
steps [] o = some o
steps (a ∷ acts) o = do o' ← step a o; steps acts o'
