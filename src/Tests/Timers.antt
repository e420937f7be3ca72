-- ===== src/Tests/Timers.antt =====
-- Timers of a reactor: src/network/reactor.cpp at concrete inputs.
use order_engine.Prelude.{ℕ, ◌≡◌, refl, some, List, [], ◌∷◌}
use order_engine.Reactor.{
  Action, create, is_in_loop_thread, wakeup, push, queue_in_loop, acts, take_tasks, end_tasks,
}
use order_engine.Reactor.Timers.{
  Timers, Job, repeats, Event, passes, wakes, loop_runs, to_delay, run_after, run_every, run_job,
  run_jobs, run_job_in_loop, do_pending_jobs, wake, happens, happen,
}
use order_engine.Reactor.Timers.Every.{instances, happen-run_every}
use order_engine.Tests.Reactor.{counter}

-- Tasks without calls, and no timer.
abbrev no_calls : ℕ → List (Action Job)
no_calls n = []

abbrev quiet : Timers counter
quiet = record { now = 1000; sleeping = []; reactor = create 0 7; started = [] }

abbrev sleeping_for : Timers counter
sleeping_for = record quiet { sleeping = (1500, repeats 4 500) ∷ [] }

-- The thread 9 wakes after 600 ms, and the loop runs the task, 1600 ms and 2100 ms after the start.
abbrev events : List Event
events = passes 600 ∷ wakes 9 0 ∷ loop_runs ∷ passes 500 ∷ wakes 9 0 ∷ loop_runs ∷ []

every_half_second : run_every 4 500 quiet ≡ some sleeping_for
unfolding run_every run_after to_delay
every_half_second = refl

runs_twice :
    (happen no_calls events sleeping_for).started
    ≡ (1600, repeats 4 500) ∷ (2100, repeats 4 500) ∷ []
unfolding create is_in_loop_thread wakeup push queue_in_loop acts take_tasks end_tasks run_job
    run_jobs run_job_in_loop do_pending_jobs wake happens happen
runs_twice = refl

happen-run_every_example : instances 4 500 (happen no_calls events sleeping_for) ≡ 1
happen-run_every_example =
    happen-run_every 4 500 no_calls (λ x. refl) events quiet sleeping_for (unfold create in refl)
      every_half_second
