-- ===== src/Reactor/Schedule/Stop.antt =====
-- What `Reactor::quit` does to the loop (src/network/reactor.cpp).
use order_engine.Prelude.{
  ◌≤◌, true, some, List, [], ◌∷◌, ◌++◌, ◌≡◌, refl, ap, ◌∙◌, subst, if◌then◌else◌, ◌>>=◌, Then,
  arith,
}
use order_engine.Reactor.{Eventfd, Action, take_tasks, end_tasks}
use order_engine.Reactor.Schedule.{
  Phase, polling, handling, draining, stopped, Run, Label, poll_returns, tasks_taken, task_runs,
  tasks_end, loop_acts, loop_step, step, steps,
}
use order_engine.Reactor.Schedule.Progress.{rounds_of}
use order_engine.Reactor.Schedule.Quitting.{steps-Quitting, stopped_by}

-- The steps that the loop makes by itself until `doPendingTasks` has run the tasks `ts`.
abbrev drain_steps : {T : Type 0} → List T → List (Label T)
drain_steps [] = tasks_end ∷ []
drain_steps (t ∷ ts) = task_runs ∷ drain_steps ts

-- The rest of the round, where `waiting` are the tasks that it will take.
abbrev pub rest_of_round : {T : Type 0} → Phase T → List T → List (Label T)
rest_of_round polling waiting = poll_returns ∷ tasks_taken ∷ drain_steps waiting
rest_of_round handling waiting = tasks_taken ∷ drain_steps waiting
rest_of_round (draining ts) waiting = drain_steps ts
rest_of_round stopped waiting = []

rounds_of-drain_steps : {T : Type 0} (ts : List T) → rounds_of (drain_steps ts) ≡ 1
rounds_of-drain_steps [] = refl
rounds_of-drain_steps (t ∷ ts) = rounds_of-drain_steps ts

module _ {F : Eventfd} {T : Type 0} (behaviour : T → List (Action T)) where
  -- The run after the next task.
  abbrev after_task : T → List T → Run F T → Run F T
  after_task t ts s =
      loop_acts (behaviour t) (record s { phase = draining ts; started = s.started ++ t ∷ [] })

  task_runs-eq :
      (t : T) (ts : List T) (s : Run F T)
      → s.phase ≡ draining (t ∷ ts)
      → step behaviour task_runs s ≡ some (after_task t ts s)
  unfolding step loop_step
  task_runs-eq t ts s e = ap (λ ph. loop_step behaviour task_runs ph s) e

  abbrev after_taking : Run F T → Run F T
  after_taking s = record s {
    phase = draining s.reactor.pending_tasks;
    reactor = take_tasks s.reactor;
  }

  tasks_taken-eq :
      (s : Run F T) → s.phase ≡ handling → step behaviour tasks_taken s ≡ some (after_taking s)
  unfolding step loop_step
  tasks_taken-eq s e = ap (λ ph. loop_step behaviour tasks_taken ph s) e

  poll_returns-eq :
      (s : Run F T)
      → s.phase ≡ polling
      → step behaviour poll_returns s ≡ some (record s { phase = handling })
  unfolding step loop_step
  poll_returns-eq s e = ap (λ ph. loop_step behaviour poll_returns ph s) e

  drain_steps-run :
      (ts : List T) (s : Run F T)
      → s.phase ≡ draining ts
      → (s' : Run F T) × (steps behaviour (drain_steps ts) s ≡ some s')
  unfolding steps loop_acts
  drain_steps-run [] s e = (
    record s {
      reactor = end_tasks s.reactor;
      phase = if s.reactor.quitting then stopped else polling;
    },
    unfold step loop_step in ap (λ ph. loop_step behaviour tasks_end ph s >>= λ u. some u) e,
  )
  drain_steps-run (t ∷ ts) s e =
      let (s', others) = drain_steps-run ts (after_task t ts s) refl in
      (s', ap (λ o. o >>= λ u. steps behaviour (drain_steps ts) u) (task_runs-eq t ts s e) ∙ others)

  handling-run :
      (s : Run F T)
      → s.phase ≡ handling
      → (s' : Run F T) × (steps behaviour (tasks_taken ∷ drain_steps s.reactor.pending_tasks) s
          ≡ some s')
  unfolding steps take_tasks
  handling-run s e =
      let ts = s.reactor.pending_tasks in
      let (s', others) = drain_steps-run ts (after_taking s) refl in
      (s', ap (λ o. o >>= λ u. steps behaviour (drain_steps ts) u) (tasks_taken-eq s e) ∙ others)

  rest_of_round-run :
      (ph : Phase T) (s : Run F T)
      → s.phase ≡ ph
      → (s' : Run F T) × (steps behaviour (rest_of_round ph s.reactor.pending_tasks) s ≡ some s')
  unfolding steps
  rest_of_round-run polling s e =
      let ls = tasks_taken ∷ drain_steps s.reactor.pending_tasks in
      let (s', others) = handling-run (record s { phase = handling }) refl in
      (s', ap (λ o. o >>= λ u. steps behaviour ls u) (poll_returns-eq s e) ∙ others)
  rest_of_round-run handling s e = handling-run s e
  rest_of_round-run (draining ts) s e = drain_steps-run ts s e
  rest_of_round-run stopped s e = (s, refl)

  rest_of_round-stops :
      (ph : Phase T) (s s' : Run F T)
      → s.phase ≡ ph
      → s.reactor.quitting ≡ true
      → steps behaviour (rest_of_round ph s.reactor.pending_tasks) s ≡ some s'
      → s'.phase ≡ stopped
  unfolding steps
  rest_of_round-stops stopped s s' e q h = subst (Then (λ u. u.phase ≡ stopped)) h e
  rest_of_round-stops polling s s' e q h =
      stopped_by behaviour _ s' (omega (arith, rounds_of-drain_steps s.reactor.pending_tasks))
        (steps-Quitting behaviour 0 (rest_of_round polling s.reactor.pending_tasks) s s' (q, tt) h)
  rest_of_round-stops handling s s' e q h =
      stopped_by behaviour _ s' (omega (arith, rounds_of-drain_steps s.reactor.pending_tasks))
        (steps-Quitting behaviour 0 (rest_of_round handling s.reactor.pending_tasks) s s' (q, tt) h)
  rest_of_round-stops (draining ts) s s' e q h =
      stopped_by behaviour _ s' (omega (arith, rounds_of-drain_steps ts)) (
        steps-Quitting behaviour 0 (rest_of_round (draining ts) s.reactor.pending_tasks) s s'
          (q, tt) h)

  -- Once the reactor is told to quit, the loop by itself has only the rest of its round to make
  -- and is then behind the loop; and whatever other threads do meanwhile, it is behind the loop
  -- as soon as a round has ended.
  pub quitting-stops :
      (s : Run F T)
      → s.reactor.quitting ≡ true
      → ((s' : Run F T) × (steps behaviour (rest_of_round s.phase s.reactor.pending_tasks) s
            ≡ some s')
          × (s'.phase ≡ stopped))
        × ((ls : List (Label T)) (s' : Run F T)
            → steps behaviour ls s ≡ some s'
            → 1 ≤ rounds_of ls
            → s'.phase ≡ stopped)
  quitting-stops s q =
      let (s', run) = rest_of_round-run s.phase s refl in
      (
        (s', run, rest_of_round-stops s.phase s s' refl q run),
        λ ls t h one.
            stopped_by behaviour (rounds_of ls) t one (steps-Quitting behaviour 0 ls s t (q, tt) h),
      )
