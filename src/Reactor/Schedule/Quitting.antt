-- ===== src/Reactor/Schedule/Quitting.antt =====
-- What stays true of the loop once the reactor is told to quit (src/network/reactor.cpp).
use order_engine.Prelude.{
  ℕ, zero, suc, ◌≤◌, true, some, List, [], ◌∷◌, ◌≡◌, refl, ap, sym, subst, if◌then◌else◌, Then,
  Then-eq-some, >>=-eq-some, arith,
}
use order_engine.Reactor.{
  Eventfd, Reactor, Action, queues, quits, push, wakeup, set_quit, act, acts, take_tasks, end_tasks,
  handle_wakeup, queue_in_loop, quit,
}
use order_engine.Reactor.Schedule.{
  Phase, polling, handling, draining, stopped, Run, Label, poll_returns, wakeup_handled,
  handler_acts, tasks_taken, task_runs, tasks_end, other_pushes, other_quits, other_wakes,
  loop_acts, loop_step, other_wake, step, steps,
}
use order_engine.Reactor.Schedule.Progress.{ends_round, rounds_from}

-- Told to quit, and stopped as soon as a round has ended.
abbrev EndedIn : {T : Type 0} → ℕ → Phase T → Type 0
EndedIn zero ph = Unit
EndedIn (suc n) ph = ph ≡ stopped

EndedIn-moves :
    {T : Type 0} (n : ℕ) (ph ph' : Phase T) → (ph ≡ stopped → ⊥) → EndedIn n ph → EndedIn n ph'
EndedIn-moves zero ph ph' k h = tt
EndedIn-moves (suc n) ph ph' k h = absurd (k h)

module _ {F : Eventfd} {T : Type 0} where
  act-quitting :
      (me : ℕ) (a : Action T) (r : Reactor F T) → r.quitting ≡ true → (act me a r).quitting ≡ true
  unfolding act queue_in_loop quit push set_quit wakeup
  act-quitting me (queues t) r h = ground arith
  act-quitting me quits r h = ground arith

  acts-quitting :
      (me : ℕ) (xs : List (Action T)) (r : Reactor F T)
      → r.quitting ≡ true
      → (acts me xs r).quitting ≡ true
  unfolding acts
  acts-quitting me [] r h = h
  acts-quitting me (a ∷ xs) r h = acts-quitting me xs (act me a r) (act-quitting me a r h)

  abbrev pub Quitting : ℕ → Run F T → Type 0
  Quitting n s = (s.reactor.quitting ≡ true) × EndedIn n s.phase

  module _ (behaviour : T → List (Action T)) where
    loop_step-Quitting :
        (n : ℕ) (l : Label T) (ph : Phase T) (s : Run F T)
        → s.phase ≡ ph
        → s.reactor.quitting ≡ true
        → EndedIn n ph
        → Then (Quitting (ends_round l n)) (loop_step behaviour l ph s)
    unfolding loop_step loop_acts handle_wakeup take_tasks end_tasks
    loop_step-Quitting n poll_returns polling s e q h =
        (q, EndedIn-moves n polling handling (λ x. cc) h)
    loop_step-Quitting n wakeup_handled handling s e q h = (q, subst (EndedIn n) (sym e) h)
    loop_step-Quitting n (handler_acts xs) handling s e q h =
        (acts-quitting s.reactor.thread_id xs s.reactor q, subst (EndedIn n) (sym e) h)
    loop_step-Quitting n tasks_taken handling s e q h =
        (q, EndedIn-moves n handling (draining s.reactor.pending_tasks) (λ x. cc) h)
    loop_step-Quitting n task_runs (draining (t ∷ ts)) s e q h = (
      acts-quitting s.reactor.thread_id (behaviour t) s.reactor q,
      EndedIn-moves n (draining (t ∷ ts)) (draining ts) (λ x. cc) h,
    )
    loop_step-Quitting n tasks_end (draining []) s e q h =
        (q, ap (λ b. if b then stopped else polling) q)
    loop_step-Quitting n _ _ s e q h = tt

    step-Quitting :
        (n : ℕ) (l : Label T) (s : Run F T)
        → Quitting n s
        → Then (Quitting (ends_round l n)) (step behaviour l s)
    unfolding step push set_quit wakeup
    step-Quitting n (other_pushes t) s h = h
    step-Quitting n other_quits s h = (refl, h.1)
    step-Quitting n other_wakes s h = woken s.owed
      where
        woken : (m : ℕ) → Then (Quitting n) (other_wake behaviour m s)
        woken zero = tt
        woken (suc m) = h
    step-Quitting n l s h = loop_step-Quitting n l s.phase s refl h.0 h.1

    pub steps-Quitting :
        (n : ℕ) (ls : List (Label T)) (s s' : Run F T)
        → Quitting n s
        → steps behaviour ls s ≡ some s'
        → Quitting (rounds_from n ls) s'
    unfolding steps
    steps-Quitting n [] s s' h e = subst (Then (Quitting n)) e h
    steps-Quitting n (l ∷ ls) s s' h e =
        let (t, first, others) = >>=-eq-some (step behaviour l s) (λ t. steps behaviour ls t) e in
        steps-Quitting (ends_round l n) ls t s'
          (Then-eq-some (Quitting (ends_round l n)) _ (step-Quitting n l s h) first) others

    pub stopped_by : (n : ℕ) (s : Run F T) → 1 ≤ n → Quitting n s → s.phase ≡ stopped
    stopped_by zero s le h = absurd (omega arith)
    stopped_by (suc n) s le h = h.1
