-- ===== src/Reactor/Schedule.antt =====
-- The loop of a reactor beside other threads that queue tasks and quit it, as sequences of steps:
-- src/network/reactor.cpp. A thread that is not the loop's pushes first and calls `wakeup` later,
-- and the loop may run in between. The loop's thread is the one that `thread_id_` names.
pub mod Order
pub mod Alert
pub mod Loop
pub mod Progress
pub mod Quitting
pub mod Stop
use order_engine.Prelude.{
  ℕ, suc, zero, Bool, Option, none, some, List, [], ◌∷◌, ◌++◌, if◌then◌else◌, ◌>>=◌,
}
use order_engine.Reactor.{
  Eventfd, Reactor, Action, queues, quits, acts, push, wakeup, set_quit, handle_wakeup, take_tasks,
  end_tasks,
}

-- Where the loop is: in `poll`, among the handlers, in `doPendingTasks` with these tasks left, or
-- behind the loop.
pub data Phase (T : Type 0) : Type 0 where
  polling : Phase T
  handling : Phase T
  draining : List T → Phase T
  stopped : Phase T

-- `owed` counts the threads that have pushed or quit and not called `wakeup` yet; `queued` lists
-- every task in the order of the pushes, and `started` in the order in which they were called.
pub record Run (F : Eventfd) (T : Type 0) : Type 0 where
  pub reactor : Reactor F T
  pub phase : Phase T
  pub owed : ℕ
  pub queued : List T
  pub started : List T

pub data Label (T : Type 0) : Type 0 where
  poll_returns : Label T
  wakeup_handled : Label T
  handler_acts : List (Action T) → Label T
  tasks_taken : Label T
  task_runs : Label T
  tasks_end : Label T
  other_pushes : T → Label T
  other_quits : Label T
  other_wakes : Label T

-- The tasks that some calls queue.
abbrev pub tasks_of : {T : Type 0} → List (Action T) → List T
tasks_of [] = []
tasks_of (queues t ∷ xs) = t ∷ tasks_of xs
tasks_of (quits ∷ xs) = tasks_of xs

module _ {F : Eventfd} {T : Type 0} where
  -- The state behind the constructor, in `poll`.
  abbrev pub started_run : Reactor F T → Run F T
  started_run r = record { reactor = r; phase = polling; owed = 0; queued = []; started = [] }

  -- Calls of the loop's own thread.
  unfoldable pub loop_acts : List (Action T) → Run F T → Run F T
  loop_acts xs s = record s {
    reactor = acts s.reactor.thread_id xs s.reactor;
    queued = s.queued ++ tasks_of xs;
  }

  module _ (behaviour : T → List (Action T)) where
    -- The loop's own steps, each in its phase.
    unfoldable pub loop_step : Label T → Phase T → Run F T → Option (Run F T)
    loop_step poll_returns polling s = some (record s { phase = handling })
    loop_step wakeup_handled handling s = some (record s { reactor = handle_wakeup s.reactor })
    loop_step (handler_acts xs) handling s = some (loop_acts xs s)
    loop_step tasks_taken handling s =
        some (record s { phase = draining s.reactor.pending_tasks; reactor = take_tasks s.reactor })
    loop_step task_runs (draining (t ∷ ts)) s =
        some (
          loop_acts (behaviour t) (record s { phase = draining ts; started = s.started ++ t ∷ [] }))
    loop_step tasks_end (draining []) s = some (record s {
      reactor = end_tasks s.reactor;
      phase = if s.reactor.quitting then stopped else polling;
    })
    loop_step _ _ s = none

    abbrev pub other_wake : ℕ → Run F T → Option (Run F T)
    other_wake zero s = none
    other_wake (suc n) s = some (record s { reactor = wakeup s.reactor; owed = n })

    unfoldable pub step : Label T → Run F T → Option (Run F T)
    unfolding loop_step
    step (other_pushes t) s =
        some
          (record s { reactor = push t s.reactor; owed = suc s.owed; queued = s.queued ++ t ∷ [] })
    step other_quits s = some (record s { reactor = set_quit s.reactor; owed = suc s.owed })
    step other_wakes s = other_wake s.owed s
    step l s = loop_step l s.phase s

    -- A schedule: steps one after the other.
    unfoldable pub steps : List (Label T) → Run F T → Option (Run F T)
    steps [] s = some s
    steps (l ∷ ls) s = do s' ← step l s; steps ls s'
