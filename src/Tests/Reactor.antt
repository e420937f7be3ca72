-- ===== src/Tests/Reactor.antt =====
-- An eventfd, and schedules of a reactor's loop: src/network/reactor.cpp.
use order_engine.Prelude.{
  ℕ, suc, ◌-◌, ◌≤◌, true, ◌^◌, ◌≡◌, refl, false, not, some, List, [], ◌∷◌, ◌==◌, if◌then◌else◌, ltb,
  arith,
}
use order_engine.Reactor.{
  Reactor, loop, rounds, handle_all, handle, do_pending_tasks, run_tasks, wakeup_channel, Eventfd,
  IsEventfd, Action, queues, create, is_in_loop_thread, wakeup, handle_wakeup, push, queue_in_loop,
  act, acts, take_tasks, end_tasks,
}
use order_engine.Reactor.Schedule.{
  Run, Label, polling, stopped, poll_returns, wakeup_handled, handler_acts, tasks_taken, task_runs,
  tasks_end, other_pushes, other_wakes, started_run, loop_acts, loop_step, step, steps,
}
use order_engine.Reactor.Schedule.Loop.{loop-steps}
use order_engine.Reactor.Schedule.Order.{steps-Ordered}
use order_engine.Reactor.Schedule.Alert.{steps-Alert}
use order_engine.Reactor.Schedule.Progress.{rounds_of, Prefix, steps-started}
use order_engine.Reactor.Schedule.Stop.{rest_of_round, quitting-stops}

-- A counter of at most 2^64 - 2.
abbrev pub counter : Eventfd
counter = record {
  Counter = ℕ;
  readable = λ c. not (c == 0);
  write = λ c. if ltb c (2 ^ 64 - 2) then suc c else c;
  read = λ c. 0;
}

counter-IsEventfd : IsEventfd counter
counter-IsEventfd = record { readable-write = λ c. ground arith }

-- Task 1 queues task 2.
abbrev behaviour : ℕ → List (Action ℕ)
behaviour n = if n == 1 then queues 2 ∷ [] else []

-- A handler queues task 3 before the loop takes task 1 of another thread.
abbrev schedule : List (Label ℕ)
schedule =
    other_pushes 1
    ∷ other_wakes
    ∷ poll_returns
    ∷ wakeup_handled
    ∷ handler_acts (queues 3 ∷ [])
    ∷ tasks_taken
    ∷ task_runs
    ∷ task_runs
    ∷ tasks_end
    ∷ poll_returns
    ∷ wakeup_handled
    ∷ tasks_taken
    ∷ task_runs
    ∷ tasks_end
    ∷ []

abbrev final : Run counter ℕ
final = record {
  reactor = record {
    thread_id = 7;
    quitting = false;
    calling_pending_tasks = false;
    pending_tasks = [];
    wakeup_fd = 0;
  };
  phase = polling;
  owed = 0;
  queued = 1 ∷ 3 ∷ 2 ∷ [];
  started = 1 ∷ 3 ∷ 2 ∷ [];
}

reaches : steps behaviour schedule (started_run (create {F = counter} 0 7)) ≡ some final
unfolding create is_in_loop_thread wakeup handle_wakeup push queue_in_loop act acts take_tasks
    end_tasks loop_acts loop_step step steps
reaches = refl

steps-Ordered_example : 1 ∷ 3 ∷ 2 ∷ [] ≡ final.queued
steps-Ordered_example = steps-Ordered behaviour schedule 0 7 final reaches

steps-Alert_example : (final.reactor.pending_tasks ≡ []) × (final.reactor.quitting ≡ false)
steps-Alert_example =
    steps-Alert counter-IsEventfd behaviour schedule 0 7 final reaches refl refl refl

-- The loop of a reactor with task 1 waiting: a round runs it, and the next one runs task 2.
abbrev waiting : Reactor counter ℕ
waiting = record final.reactor { pending_tasks = 1 ∷ [] }

loop_runs :
    loop {F = counter} behaviour 7 ([] ∷ (wakeup_channel ∷ []) ∷ []) waiting ≡ some final.reactor
unfolding loop rounds handle_all handle do_pending_tasks run_tasks is_in_loop_thread wakeup
    handle_wakeup push queue_in_loop act acts take_tasks end_tasks
loop_runs = refl

loop-steps_example :
    (ls : List (Label ℕ)) × (s : Run counter ℕ) × (steps behaviour ls (started_run waiting)
      ≡ some s)
    × (s.phase ≡ polling)
    × (s.reactor ≡ final.reactor)
loop-steps_example =
    loop-steps behaviour 7 ([] ∷ (wakeup_channel ∷ []) ∷ []) waiting final.reactor loop_runs

-- Before the loop has run at all, with task 1 in the queue.
abbrev early : Run counter ℕ
early = record {
  reactor = record {
    thread_id = 7;
    quitting = false;
    calling_pending_tasks = false;
    pending_tasks = 1 ∷ [];
    wakeup_fd = 1;
  };
  phase = polling;
  owed = 0;
  queued = 1 ∷ [];
  started = [];
}

abbrev arrivals : List (Label ℕ)
arrivals = other_pushes 1 ∷ other_wakes ∷ []

abbrev rest_of_schedule : List (Label ℕ)
rest_of_schedule =
    poll_returns
    ∷ wakeup_handled
    ∷ handler_acts (queues 3 ∷ [])
    ∷ tasks_taken
    ∷ task_runs
    ∷ task_runs
    ∷ tasks_end
    ∷ poll_returns
    ∷ wakeup_handled
    ∷ tasks_taken
    ∷ task_runs
    ∷ tasks_end
    ∷ []

reaches_early : steps behaviour arrivals (started_run (create {F = counter} 0 7)) ≡ some early
unfolding create wakeup push loop_step step steps
reaches_early = refl

early_reaches : steps behaviour rest_of_schedule early ≡ some final
unfolding create is_in_loop_thread wakeup handle_wakeup push queue_in_loop act acts take_tasks
    end_tasks loop_acts loop_step step steps
early_reaches = refl

steps-started_example : Prefix early.queued final.started
steps-started_example =
    steps-started behaviour arrivals rest_of_schedule 0 7 early final reaches_early early_reaches
      (omega arith)

-- Task 2 waits, and the reactor is told to quit.
abbrev told : Run counter ℕ
told = record final { reactor = record final.reactor { quitting = true; pending_tasks = 2 ∷ [] } }

quitting-stops_example :
    ((s' : Run counter ℕ) × (steps behaviour (rest_of_round told.phase (2 ∷ [])) told ≡ some s')
      × (s'.phase ≡ stopped))
    × ((ls : List (Label ℕ)) (s' : Run counter ℕ)
        → steps behaviour ls told ≡ some s'
        → 1 ≤ rounds_of ls
        → s'.phase ≡ stopped)
quitting-stops_example = quitting-stops behaviour told refl
