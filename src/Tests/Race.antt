-- ===== src/Tests/Race.antt =====
-- Interleavings on the table of connections: src/network/tcp_server.cpp at concrete inputs.
use order_engine.Prelude.{
  ℕ, Bool, true, false, nat_eq, ◌≡◌, refl, none, some, Option, List, [], ◌∷◌, lookup, insert, erase,
}
use order_engine.Connection
use order_engine.Connection.{Connection, establish_connection, close_connection, is_connected}
use order_engine.Poller.{changed}
use order_engine.Server.Race.{
  Shared, Label, makes, enters, manages, closes, nothing, make, enter, manage, remove_connection,
  close, step, steps,
}
use order_engine.Server.Race.Entries.{entry_of, steps-entries}
use order_engine.Server.Race.Heard.{heard_of, calls_of, steps-heard}
use order_engine.Server.Owners
use order_engine.Server.Owners.{Owned, Act, races, ends, schedule, schedules, unowned}
use order_engine.Server.Owners.Count.{owners_of}
use order_engine.Server.Owners.Alive.{steps-alive}

-- The connection 12 is closed before it is entered, and 13 after it; 14 waits for its task.
abbrev interleaved : List Label
interleaved =
    makes 12 100
    ∷ manages 12 100
    ∷ closes 12
    ∷ enters 12
    ∷ makes 13 101
    ∷ enters 13
    ∷ manages 13 102
    ∷ closes 13
    ∷ makes 14 103
    ∷ enters 14
    ∷ []

abbrev or_nothing : Option Shared → Shared
or_nothing none = nothing
or_nothing (some s) = s

-- The entry of 12 stays.
leaves : (or_nothing (steps interleaved nothing)).entries ≡ (12, 12) ∷ (14, 14) ∷ []
unfolding Connection.create establish_connection close_connection is_connected make enter manage
    remove_connection close step steps lookup insert erase
leaves = refl

abbrev at_end : Shared
at_end = or_nothing (steps interleaved nothing)

reached : steps interleaved nothing ≡ some at_end
unfolding Connection.create establish_connection close_connection is_connected make enter manage
    remove_connection close step steps lookup insert erase
reached = refl

steps-entries_example : lookup 12 at_end.entries ≡ entry_of 12 (lookup 12 at_end.clients)
steps-entries_example = steps-entries interleaved at_end reached 12

steps-heard_example : heard_of 12 at_end.heard ≡ calls_of (lookup 12 at_end.clients)
steps-heard_example = steps-heard interleaved at_end reached 12

-- The same, and the batch that ran the task of 12 ends while that of 13 goes on.
abbrev batched : List Act
batched =
    races (makes 12 100)
    ∷ races (manages 12 100)
    ∷ races (closes 12)
    ∷ ends 12
    ∷ races (enters 12)
    ∷ races (makes 13 101)
    ∷ races (enters 13)
    ∷ races (manages 13 102)
    ∷ races (closes 13)
    ∷ races (makes 14 103)
    ∷ races (enters 14)
    ∷ []

abbrev batches : ℕ → Bool
batches = changed 13 true (changed 12 false (changed 12 true (λ fd. false)))

scheduled : schedules batched (nothing, λ fd. false) ≡ some (at_end, batches)
unfolding Connection.create establish_connection close_connection is_connected make enter manage
    remove_connection close step steps lookup insert erase schedules schedule
scheduled = refl

steps-alive_example :
    (o : Owned) × (Owners.steps batched unowned ≡ some o)
    × (o.shared ≡ at_end)
    × (o.in_batch ≡ batches)
    × (o.closed ≡ [])
    × ((fd : ℕ) → o.uses fd ≡ owners_of (lookup fd at_end.clients))
steps-alive_example = steps-alive batched at_end batches scheduled
