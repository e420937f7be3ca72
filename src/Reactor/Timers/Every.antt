-- ===== src/Reactor/Timers/Every.antt =====
-- A task of `Reactor::runEvery` is never lost and never doubled (src/network/reactor.cpp).
use order_engine.Prelude.{
  ℕ, zero, suc, ◌+◌, ◌^◌, ◌&&◌, Bool-cases, inl, inr, Option, some, none, List, [], ◌∷◌, ◌++◌, ◌≡◌,
  refl, ap, ◌∙◌, ◌==◌, leb, ltb, if◌then◌else◌, Option-cases, arith,
}
use order_engine.Reactor.{Eventfd, Reactor, Action, acts, is_in_loop_thread, take_tasks, end_tasks}
use order_engine.Reactor.Schedule.{tasks_of}
use order_engine.Reactor.Schedule.Order.{acts-pending, queue_in_loop-pending}
use order_engine.Reactor.Timers.{
  Job, once, repeats, Timers, Event, passes, wakes, loop_runs, take_out, to_delay, run_after,
  run_every, run_job, run_jobs, run_job_in_loop, do_pending_jobs, wake_from, wake, happens, happen,
}

module _ (t interval : ℕ) where
  -- How often the repeated task is a job of a list.
  abbrev is_repeat : Job → ℕ
  is_repeat (once x) = 0
  is_repeat (repeats x d) = if x == t && d == interval then 1 else 0

  abbrev pub count : List Job → ℕ
  count [] = 0
  count (j ∷ js) = is_repeat j + count js

  abbrev count_sleeping : List (ℕ × Job) → ℕ
  count_sleeping [] = 0
  count_sleeping ((due, j) ∷ js) = is_repeat j + count_sleeping js

  count-append : (xs ys : List Job) → count (xs ++ ys) ≡ count xs + count ys
  count-append [] ys = omega arith
  count-append (x ∷ xs) ys = omega (arith, count-append xs ys)

  count_sleeping-append :
      (xs ys : List (ℕ × Job)) → count_sleeping (xs ++ ys) ≡ count_sleeping xs + count_sleeping ys
  count_sleeping-append [] ys = omega arith
  count_sleeping-append ((due, x) ∷ xs) ys = omega (arith, count_sleeping-append xs ys)

  count_sleeping-take_out :
      (i : ℕ) (xs rest : List (ℕ × Job)) (due : ℕ) (j : Job)
      → take_out i xs ≡ some ((due, j), rest)
      → count_sleeping xs ≡ is_repeat j + count_sleeping rest
  count_sleeping-take_out i [] rest due j h = absurd (cc)
  count_sleeping-take_out zero ((d, x) ∷ xs) rest due j h = ground arith
  count_sleeping-take_out (suc i) ((d, x) ∷ xs) rest due j h = elim (Option-cases (take_out i xs)) [
    | inl e ↦ absurd (cc (rw e at h))
    | inr (((d', y), ys), e) ↦ ground (arith, count_sleeping-take_out i xs ys d' y e, rw e at h)
  ]

  -- No task queues the repeated one by itself.
  abbrev IsApart : (ℕ → List (Action Job)) → Type 0
  IsApart behaviour = (x : ℕ) → count (tasks_of (behaviour x)) ≡ 0

  module _ {F : Eventfd} where
    -- The instances of the repeated task: the sleeping threads' and the waiting tasks.
    abbrev pub instances : Timers F → ℕ
    instances w = count_sleeping w.sleeping + count w.reactor.pending_tasks

    instances-run_every :
        (w w' : Timers F) → run_every t interval w ≡ some w' → instances w' ≡ suc (instances w)
    unfolding run_every run_after to_delay
    instances-run_every w w' h = elim (Bool-cases (ltb interval (2 ^ 31))) [
      | inl small ↦ ground (
        arith,
        small,
        h,
        count_sleeping-append w.sleeping ((w.now + interval, repeats t interval) ∷ []),
      )
      | inr large ↦ absurd (cc (rw large at h))
    ]

    module _ (behaviour : ℕ → List (Action Job)) (apart : IsApart behaviour) where
      -- The calls of a task queue no instance.
      count-acts :
          (x : ℕ) (r : Reactor F Job)
          → count (acts r.thread_id (behaviour x) r).pending_tasks ≡ count r.pending_tasks
      count-acts x r =
          ap count (acts-pending r.thread_id (behaviour x) r)
          ∙ omega (arith, count-append r.pending_tasks (tasks_of (behaviour x)), apart x)

      instances-run_job :
          (j : Job) (w : Timers F) → instances (run_job behaviour j w) ≡ instances w + is_repeat j
      unfolding run_job
      instances-run_job (once x) w = omega (arith, count-acts x w.reactor)
      instances-run_job (repeats x d) w = omega (
        arith,
        count-acts x w.reactor,
        count_sleeping-append w.sleeping ((w.now + d, repeats x d) ∷ []),
      )

      instances-run_jobs :
          (js : List Job) (w : Timers F)
          → instances (run_jobs behaviour js w) ≡ instances w + count js
      unfolding run_jobs
      instances-run_jobs [] w = omega arith
      instances-run_jobs (j ∷ js) w =
          omega (arith, instances-run_jobs js (run_job behaviour j w), instances-run_job j w)

      instances-run_job_in_loop :
          (me : ℕ) (j : Job) (w : Timers F)
          → instances (run_job_in_loop behaviour me j w) ≡ instances w + is_repeat j
      unfolding run_job_in_loop
      instances-run_job_in_loop me j w = elim (Bool-cases (is_in_loop_thread me w.reactor)) [
        | inl mine ↦ rw mine (instances-run_job j w)
        | inr other ↦ rw other (
            omega (
              arith,
              ap count (queue_in_loop-pending me j w.reactor),
              count-append w.reactor.pending_tasks (j ∷ []),
            ))
      ]

      instances-wake_from :
          (me i : ℕ) (w : Timers F) (o : Option ((ℕ × Job) × List (ℕ × Job)))
          → take_out i w.sleeping ≡ o
          → instances (wake_from behaviour me o w) ≡ instances w
      instances-wake_from me i w none e = refl
      instances-wake_from me i w (some ((due, j), rest)) e = elim (Bool-cases (leb due w.now)) [
        | inl over ↦ rw over (
            omega (
              arith,
              instances-run_job_in_loop me j (record w { sleeping = rest }),
              count_sleeping-take_out i w.sleeping rest due j e,
            ))
        | inr early ↦ rw early
      ]

      instances-happens :
          (e : Event) (w : Timers F) → instances (happens behaviour e w) ≡ instances w
      unfolding happens wake do_pending_jobs take_tasks end_tasks
      instances-happens (passes n) w = refl
      instances-happens (wakes me i) w = instances-wake_from me i w (take_out i w.sleeping) refl
      instances-happens loop_runs w = omega (
        arith,
        instances-run_jobs w.reactor.pending_tasks (record w { reactor = take_tasks w.reactor }),
      )

      instances-happen :
          (es : List Event) (w : Timers F) → instances (happen behaviour es w) ≡ instances w
      unfolding happen
      instances-happen [] w = refl
      instances-happen (e ∷ es) w =
          instances-happen es (happens behaviour e w) ∙ instances-happens e w

      -- After `runEvery`, whatever happens and in whatever order, the repeated task is there exactly
      -- once: one thread sleeps for it, or it waits in the loop's queue; if it was not there before,
      -- and no task queues it by itself.
      pub happen-run_every :
          (es : List Event) (w w' : Timers F)
          → instances w ≡ 0
          → run_every t interval w ≡ some w'
          → instances (happen behaviour es w') ≡ 1
      happen-run_every es w w' none_yet h =
          omega (arith, instances-happen es w', instances-run_every w w' h)
