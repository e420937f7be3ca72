-- ===== src/Server/Race.antt =====
-- The table of connections between two threads (src/network/tcp_server.cpp): the main reactor's
-- makes a connection, hands its task to a sub-reactor and then enters the connection into the
-- table, while the sub-reactor's thread may already run the task and close the connection. Each
-- connection has its own descriptor: that of a connection is closed by its destructor only.
pub mod Rule
pub mod Entries
pub mod Heard
use order_engine.Prelude.{
  ℕ, Bool, true, false, ◌||◌, not, Option, none, some, List, [], ◌∷◌, ◌++◌, if◌then◌else◌, ◌>>=◌,
  Map, lookup, insert, erase, nat_eq,
}
use order_engine.Connection
use order_engine.Connection.{
  State, disconnected, Connection, Handlers, is_connected, establish_connection, close_connection,
}

abbrev pub is_disconnected_state : State → Bool
is_disconnected_state disconnected = true
is_disconnected_state _ = false

abbrev pub is_disconnected : Connection → Bool
is_disconnected c = is_disconnected_state c.state

-- A connection; whether its task waits in the sub-reactor, and its entry in `handleNewConnection`;
-- and whether it was closed before it was entered.
pub record Client : Type 0 where
  pub connection : Connection
  pub task_waits : Bool
  pub entry_waits : Bool
  pub closed_first : Bool

-- `entries` is `connections_`, with the descriptor of a connection in place of the pointer to it;
-- `heard` has the calls of the client's `connection_callback_`, with what `isConnected()` is then.
pub record Shared : Type 0 where
  pub clients : Map ℕ Client
  pub entries : Map ℕ ℕ
  pub heard : List (ℕ × Bool)

pub data Label : Type 0 where
  makes : ℕ → ℕ → Label
  enters : ℕ → Label
  manages : ℕ → ℕ → Label
  closes : ℕ → Label

abbrev pub nothing : Shared
nothing = record { clients = []; entries = []; heard = [] }

-- `handleNewConnection` up to its `runInLoop`.
unfoldable pub make : ℕ → ℕ → Shared → Shared
make fd now s = record s {
  clients =
      insert fd
        (record {
          connection = Connection.create fd now;
          task_waits = true;
          entry_waits = true;
          closed_first = false;
        })
        s.clients;
}

-- `connections_[connfd] = conn`
unfoldable pub enter : ℕ → Client → Shared → Shared
enter fd k s = record s {
  clients =
      insert fd (record k { entry_waits = false; closed_first = is_disconnected k.connection })
        s.clients;
  entries = insert fd fd s.entries;
}

-- `if (connection_callback_) connection_callback_(conn)`
abbrev hear : Connection → List (ℕ × Bool) → List (ℕ × Bool)
hear c heard = heard ++ (c.sockfd, is_connected c) ∷ []

-- The task.
unfoldable pub manage : ℕ → ℕ → Client → Shared → Shared
manage fd now k s =
    let c = establish_connection now k.connection in
    record s {
      clients = insert fd (record k { connection = c; task_waits = false }) s.clients;
      heard = hear c s.heard;
    }

-- `removeConnection`
unfoldable pub remove_connection : Connection → Map ℕ ℕ → Map ℕ ℕ
remove_connection c entries = erase c.sockfd entries

-- The close callback that the server sets.
abbrev removing : Handlers (Map ℕ ℕ × List (ℕ × Bool))
removing = record {
  message_callback = none;
  close_callback = some (λ (c, (entries, heard)). (c, (remove_connection c entries, hear c heard)));
}

unfoldable pub close : ℕ → Client → Shared → Shared
unfolding remove_connection
close fd k s =
    let (c, (entries, heard)) = close_connection removing (k.connection, (s.entries, s.heard)) in
    record {
      clients = insert fd (record k { connection = c }) s.clients;
      entries = entries;
      heard = heard;
    }

-- A step, if it can be made.
abbrev make_new : ℕ → ℕ → Option Client → Shared → Option Shared
make_new fd now none s = some (make fd now s)
make_new fd now (some k) s = none

abbrev client_step : Label → Client → Shared → Option Shared
client_step (makes fd now) k s = none
client_step (enters fd) k s = if k.entry_waits then some (enter fd k s) else none
client_step (manages fd now) k s = if k.task_waits then some (manage fd now k s) else none
client_step (closes fd) k s = some (close fd k s)

unfoldable pub step : Label → Shared → Option Shared
unfolding make enter manage close
step (makes fd now) s = make_new fd now (lookup fd s.clients) s
step (enters fd) s = do k ← lookup fd s.clients; client_step (enters fd) k s
step (manages fd now) s = do k ← lookup fd s.clients; client_step (manages fd now) k s
step (closes fd) s = do k ← lookup fd s.clients; client_step (closes fd) k s

unfoldable pub steps : List Label → Shared → Option Shared
steps [] s = some s
steps (l ∷ ls) s = do s' ← step l s; steps ls s'
