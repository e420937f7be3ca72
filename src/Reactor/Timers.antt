-- ===== src/Reactor/Timers.antt =====
-- `runAt`, `runAfter` and `runEvery` of src/network/reactor.cpp. Each timer is a thread of its own
-- that sleeps and then calls `runInLoop`. Time is in milliseconds and a task is a number; a delay
-- is the `int` that the code makes of `delay_seconds * 1000`, for which `none` stands where it is
-- out of range: then the conversion is undefined.
pub mod Every
use order_engine.Prelude.{
  ℕ, zero, suc, ◌+◌, ◌-◌, ◌*◌, ◌/◌, ◌^◌, Bool, true, false, Option, none, some, List, [], ◌∷◌, ◌++◌,
  ◌==◌, leb, ltb, if◌then◌else◌, ◌>>=◌,
}
use order_engine.Reactor.{
  Eventfd, Reactor, Action, acts, is_in_loop_thread, queue_in_loop, take_tasks, end_tasks,
}

-- What a timer's thread hands to the loop: a task, or the λ of `runEvery` with its interval.
pub data Job : Type 0 where
  once : ℕ → Job
  repeats : ℕ → ℕ → Job

-- `sleeping` has each sleeping thread with the time at which it wakes; `started` the jobs that the
-- loop ran, with the times.
pub record Timers (F : Eventfd) : Type 0 where
  pub now : ℕ
  pub sleeping : List (ℕ × Job)
  pub reactor : Reactor F Job
  pub started : List (ℕ × Job)

pub data Event : Type 0 where
  passes : ℕ → Event
  wakes : ℕ → ℕ → Event
  loop_runs : Event

-- An element by its index, and the others.
abbrev keep_first : {A : Type 0} → A → Option (A × List A) → Option (A × List A)
keep_first x none = none
keep_first x (some (y, ys)) = some (y, x ∷ ys)

abbrev pub take_out : {A : Type 0} → ℕ → List A → Option (A × List A)
take_out i [] = none
take_out zero (x ∷ xs) = some (x, xs)
take_out (suc i) (x ∷ xs) = keep_first x (take_out i xs)

-- `static_cast<int>(delay_seconds * 1000)`
unfoldable pub to_delay : ℕ → Option ℕ
to_delay milliseconds = if ltb milliseconds (2 ^ 31) then some milliseconds else none

module _ {F : Eventfd} where
  abbrev sleeps : ℕ → Job → Timers F → Timers F
  sleeps delay j w = record w { sleeping = w.sleeping ++ (w.now + delay, j) ∷ [] }

  unfoldable pub run_after : Job → ℕ → Timers F → Option (Timers F)
  unfolding to_delay
  run_after j milliseconds w = do delay ← to_delay milliseconds; some (sleeps delay j w)

  unfoldable pub run_every : ℕ → ℕ → Timers F → Option (Timers F)
  unfolding run_after
  run_every t interval w = run_after (repeats t interval) interval w

  module _ (behaviour : ℕ → List (Action Job)) where
    -- A job in the loop's thread. The interval was in range when its first timer was made.
    unfoldable pub run_job : Job → Timers F → Timers F
    run_job (once t) w = record w {
      reactor = acts w.reactor.thread_id (behaviour t) w.reactor;
      started = w.started ++ (w.now, once t) ∷ [];
    }
    run_job (repeats t interval) w = sleeps interval (repeats t interval) (record w {
      reactor = acts w.reactor.thread_id (behaviour t) w.reactor;
      started = w.started ++ (w.now, repeats t interval) ∷ [];
    })

    -- `runInLoop` of a job, in the thread `me`.
    unfoldable pub run_job_in_loop : ℕ → Job → Timers F → Timers F
    unfolding run_job
    run_job_in_loop me j w =
        if is_in_loop_thread me w.reactor
        then run_job j w
        else record w { reactor = queue_in_loop me j w.reactor }

    -- `runAt` in the thread `me`, at a time in seconds.
    unfoldable run_at : ℕ → ℕ → ℕ → Timers F → Option (Timers F)
    unfolding run_after run_job_in_loop
    run_at me t time w =
        if leb time (w.now / 1000)
        then some (run_job_in_loop me (once t) w)
        else run_after (once t) ((time - w.now / 1000) * 1000) w

    unfoldable pub run_jobs : List Job → Timers F → Timers F
    run_jobs [] w = w
    run_jobs (j ∷ js) w = run_jobs js (run_job j w)

    -- `doPendingTasks`
    unfoldable pub do_pending_jobs : Timers F → Timers F
    do_pending_jobs w =
        let w' = run_jobs w.reactor.pending_tasks (record w { reactor = take_tasks w.reactor }) in
        record w' { reactor = end_tasks w'.reactor }

    -- The sleeping thread of the index `i` wakes if its time has come, and calls `runInLoop`; `me`
    -- is its id.
    abbrev wake_from : ℕ → Option ((ℕ × Job) × List (ℕ × Job)) → Timers F → Timers F
    wake_from me none w = w
    wake_from me (some ((due, j), rest)) w =
        if leb due w.now then run_job_in_loop me j (record w { sleeping = rest }) else w

    unfoldable pub wake : ℕ → ℕ → Timers F → Timers F
    wake me i w = wake_from me (take_out i w.sleeping) w

    -- What happens next: time passes, a thread wakes, or the loop runs its tasks.
    unfoldable pub happens : Event → Timers F → Timers F
    unfolding wake do_pending_jobs
    happens (passes n) w = record w { now = w.now + n }
    happens (wakes me i) w = wake me i w
    happens loop_runs w = do_pending_jobs w

    unfoldable pub happen : List Event → Timers F → Timers F
    happen [] w = w
    happen (e ∷ es) w = happen es (happens e w)
