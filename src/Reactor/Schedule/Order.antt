-- ===== src/Reactor/Schedule/Order.antt =====
-- The order in which a reactor starts its tasks (src/network/reactor.cpp).
use order_engine.Prelude.{
  Bool-cases, inl, inr, ℕ, zero, suc, some, List, [], ◌∷◌, ◌++◌, ◌≡◌, refl, ap, sym, ◌∙◌, Then,
  >>=-Then, Then-eq-some, append-nil, append_assoc, arith,
}
use order_engine.Reactor.{
  Eventfd, Reactor, Action, queues, quits, create, push, wakeup, queue_in_loop, set_quit, quit, act,
  acts, take_tasks, end_tasks, handle_wakeup,
}
use order_engine.Reactor.Schedule.{
  Phase, polling, handling, draining, Run, Label, poll_returns, wakeup_handled, handler_acts,
  tasks_taken, task_runs, tasks_end, other_pushes, other_quits, other_wakes, tasks_of, started_run,
  loop_acts, loop_step, other_wake, step, steps,
}

-- The tasks of `doPendingTasks` that are left.
abbrev pub left : {T : Type 0} → Phase T → List T
left (draining ts) = ts
left _ = []

module _ {F : Eventfd} {T : Type 0} where
  pub queue_in_loop-pending :
      (me : ℕ) (t : T) (r : Reactor F T)
      → (queue_in_loop me t r).pending_tasks ≡ r.pending_tasks ++ t ∷ []
  unfolding queue_in_loop push wakeup
  queue_in_loop-pending me t r = ground arith

  quit-pending : (me : ℕ) (r : Reactor F T) → (quit me r).pending_tasks ≡ r.pending_tasks
  unfolding quit set_quit wakeup
  quit-pending me r = ground arith

  pub acts-pending :
      (me : ℕ) (xs : List (Action T)) (r : Reactor F T)
      → (acts me xs r).pending_tasks ≡ r.pending_tasks ++ tasks_of xs
  unfolding acts act
  acts-pending me [] r = sym (append-nil _)
  acts-pending me (queues t ∷ xs) r =
      acts-pending me xs (queue_in_loop me t r)
      ∙ ap (λ p. p ++ tasks_of xs) (queue_in_loop-pending me t r)
      ∙ append_assoc r.pending_tasks (t ∷ []) (tasks_of xs)
  acts-pending me (quits ∷ xs) r =
      acts-pending me xs (quit me r) ∙ ap (λ p. p ++ tasks_of xs) (quit-pending me r)

  abbrev pub Ordered : Run F T → Type 0
  Ordered s = s.started ++ (left s.phase ++ s.reactor.pending_tasks) ≡ s.queued

  loop_acts-Ordered : (xs : List (Action T)) (s : Run F T) → Ordered s → Ordered (loop_acts xs s)
  unfolding loop_acts
  loop_acts-Ordered xs s h =
      ap (λ p. s.started ++ (left s.phase ++ p)) (acts-pending s.reactor.thread_id xs s.reactor)
      ∙ (simp (append_assoc))
      ∙ ap (λ q. q ++ tasks_of xs) h

  module _ (behaviour : T → List (Action T)) where
    loop_step-Ordered :
        (l : Label T) (ph : Phase T) (s : Run F T)
        → s.phase ≡ ph
        → Ordered s
        → Then Ordered (loop_step behaviour l ph s)
    unfolding loop_step handle_wakeup take_tasks end_tasks
    loop_step-Ordered poll_returns polling s e h = rw e at h
    loop_step-Ordered wakeup_handled handling s e h = h
    loop_step-Ordered (handler_acts xs) handling s e h = loop_acts-Ordered xs s h
    loop_step-Ordered tasks_taken handling s e h =
        let waiting : s.started ++ s.reactor.pending_tasks ≡ s.queued = rw e at h in
        ap (λ p. s.started ++ p) (append-nil s.reactor.pending_tasks) ∙ waiting
    loop_step-Ordered task_runs (draining (t ∷ ts)) s e h =
        loop_acts-Ordered (behaviour t)
          (record s { phase = draining ts; started = s.started ++ t ∷ [] })
          (append_assoc s.started (t ∷ []) _ ∙ rw e at h)
    loop_step-Ordered tasks_end (draining []) s e h =
        let waiting : s.started ++ s.reactor.pending_tasks ≡ s.queued = rw e at h in
        elim (Bool-cases s.reactor.quitting) [ inl q ↦ rw q waiting | inr q ↦ rw q waiting ]
    loop_step-Ordered _ _ s e h = tt

    pub step-Ordered : (l : Label T) (s : Run F T) → Ordered s → Then Ordered (step behaviour l s)
    unfolding step push set_quit wakeup
    step-Ordered (other_pushes t) s h = simp (append_assoc, sym h)
    step-Ordered other_quits s h = h
    step-Ordered other_wakes s h = woken s.owed
      where
        woken : (n : ℕ) → Then Ordered (other_wake behaviour n s)
        woken zero = tt
        woken (suc n) = h
    step-Ordered l s h = loop_step-Ordered l s.phase s refl h

    all-Ordered :
        (ls : List (Label T)) (s : Run F T) → Ordered s → Then Ordered (steps behaviour ls s)
    unfolding steps
    all-Ordered [] s h = h
    all-Ordered (l ∷ ls) s h = >>=-Then Ordered Ordered _ _ (step-Ordered l s h) (all-Ordered ls)

    -- Whatever the loop and the other threads do, in any order of their steps: the tasks that were
    -- started, those that `doPendingTasks` still holds and those that wait, in this sequence, are
    -- the tasks in the order in which they were queued. No task is lost, started twice or overtaken.
    pub steps-Ordered :
        (ls : List (Label T)) (c : F.Counter) (me : ℕ) (s : Run F T)
        → steps behaviour ls (started_run (create c me)) ≡ some s
        → Ordered s
    unfolding create
    steps-Ordered ls c me s =
        Then-eq-some Ordered _ (all-Ordered ls (started_run (create c me)) refl)
