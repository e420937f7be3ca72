-- ===== src/Reactor/Schedule/Progress.antt =====
-- How long a task waits, and how long the loop lives after `quit` (src/network/reactor.cpp).
use order_engine.Prelude.{
  ℕ, zero, suc, ◌≤◌, Bool-cases, inl, inr, some, List, [], ◌∷◌, ◌++◌, ◌≡◌, refl, ap, sym, ◌∙◌,
  subst, Then, Then-eq-some, >>=-eq-some, append-nil, append_assoc, arith,
}
use order_engine.Reactor.{Eventfd, Action, create, push, wakeup, set_quit}
use order_engine.Reactor.Schedule.{
  Phase, polling, handling, draining, stopped, Run, Label, poll_returns, wakeup_handled,
  handler_acts, tasks_taken, task_runs, tasks_end, other_pushes, other_quits, other_wakes, tasks_of,
  started_run, loop_acts, loop_step, other_wake, step, steps,
}
use order_engine.Reactor.Schedule.Order.{Ordered, step-Ordered, steps-Ordered}

-- The rounds that end in a schedule.
abbrev pub ends_round : {T : Type 0} → Label T → ℕ → ℕ
ends_round tasks_end n = suc n
ends_round _ n = n

abbrev pub rounds_from : {T : Type 0} → ℕ → List (Label T) → ℕ
rounds_from n [] = n
rounds_from n (l ∷ ls) = rounds_from (ends_round l n) ls

abbrev pub rounds_of : {T : Type 0} → List (Label T) → ℕ
rounds_of ls = rounds_from 0 ls

abbrev pub Prefix : {T : Type 0} → List T → List T → Type 0
Prefix {T} xs ys = (rest : List T) × (ys ≡ xs ++ rest)

Prefix-append : {T : Type 0} (xs ys zs : List T) → Prefix xs ys → Prefix xs (ys ++ zs)
Prefix-append xs ys zs (rest, e) = (rest ++ zs, ap (λ l. l ++ zs) e ∙ append_assoc xs rest zs)

module _ {T : Type 0} (q : List T) where
  abbrev TakenIn : Phase T → List T → Type 0
  TakenIn (draining ts) started = Prefix q (started ++ ts)
  TakenIn _ started = Unit

  -- The tasks of `q` are queued; after the end of a round, what `doPendingTasks` takes next has
  -- those that were not started; after the end of another one, all of them are started.
  abbrev Progress : ℕ → Phase T → List T → List T → Type 0
  Progress zero ph queued started = Prefix q queued
  Progress (suc zero) ph queued started = Prefix q queued × TakenIn ph started
  Progress (suc (suc n)) ph queued started = Prefix q started

  Progress-append :
      (n : ℕ) (ph : Phase T) (queued started more : List T)
      → Progress n ph queued started
      → Progress n ph (queued ++ more) started
  Progress-append zero ph queued started more h = Prefix-append q queued more h
  Progress-append (suc zero) ph queued started more h = (Prefix-append q queued more h.0, h.1)
  Progress-append (suc (suc n)) ph queued started more h = h

  Progress-phase :
      (n : ℕ) (ph ph' : Phase T) (queued started : List T)
      → (Prefix q queued → TakenIn ph' started)
      → Progress n ph queued started
      → Progress n ph' queued started
  Progress-phase zero ph ph' queued started k h = h
  Progress-phase (suc zero) ph ph' queued started k h = (h.0, k h.0)
  Progress-phase (suc (suc n)) ph ph' queued started k h = h

  Progress-runs :
      (n : ℕ) (t : T) (ts queued started : List T)
      → Progress n (draining (t ∷ ts)) queued started
      → Progress n (draining ts) queued (started ++ t ∷ [])
  Progress-runs zero t ts queued started h = h
  Progress-runs (suc zero) t ts queued started (h, (rest, e)) =
      (h, (rest, append_assoc started (t ∷ []) ts ∙ e))
  Progress-runs (suc (suc n)) t ts queued started h = Prefix-append q started (t ∷ []) h

  Progress-ends :
      (n : ℕ) (ph : Phase T) (queued started : List T)
      → TakenIn ph started
      → Progress n (draining []) queued started
      → Progress (suc n) ph queued started
  Progress-ends zero ph queued started k h = (h, k)
  Progress-ends (suc zero) ph queued started k (h, (rest, e)) = (rest, sym (append-nil started) ∙ e)
  Progress-ends (suc (suc n)) ph queued started k h = h

module _ {F : Eventfd} {T : Type 0} (behaviour : T → List (Action T)) (q : List T) where
  abbrev ProgressOf : ℕ → Run F T → Type 0
  ProgressOf n s = Progress q n s.phase s.queued s.started

  -- `n` counts the rounds that have ended.
  loop_step-Progress :
      (n : ℕ) (l : Label T) (ph : Phase T) (s : Run F T)
      → s.phase ≡ ph
      → Ordered s
      → Progress q n ph s.queued s.started
      → Then (ProgressOf (ends_round l n)) (loop_step behaviour l ph s)
  unfolding loop_step loop_acts
  loop_step-Progress n poll_returns polling s e o h =
      Progress-phase q n polling handling s.queued s.started (λ p. tt) h
  loop_step-Progress n wakeup_handled handling s e o h =
      subst (λ ph. Progress q n ph s.queued s.started) (sym e) h
  loop_step-Progress n (handler_acts xs) handling s e o h =
      subst (λ ph. Progress q n ph (s.queued ++ tasks_of xs) s.started) (sym e)
        (Progress-append q n handling s.queued s.started (tasks_of xs) h)
  loop_step-Progress n tasks_taken handling s e o h =
      let waiting : s.started ++ s.reactor.pending_tasks ≡ s.queued = rw e at o in
      Progress-phase q n handling (draining s.reactor.pending_tasks) s.queued s.started
        (λ p. (p.0, waiting ∙ p.1)) h
  loop_step-Progress n task_runs (draining (t ∷ ts)) s e o h =
      Progress-append q n (draining ts) s.queued (s.started ++ t ∷ []) (tasks_of (behaviour t))
        (Progress-runs q n t ts s.queued s.started h)
  loop_step-Progress n tasks_end (draining []) s e o h = elim (Bool-cases s.reactor.quitting) [
    | inl b ↦ rw b (Progress-ends q n stopped s.queued s.started tt h)
    | inr b ↦ rw b (Progress-ends q n polling s.queued s.started tt h)
  ]
  loop_step-Progress n _ _ s e o h = tt

  step-Progress :
      (n : ℕ) (l : Label T) (s : Run F T)
      → Ordered s
      → ProgressOf n s
      → Then (ProgressOf (ends_round l n)) (step behaviour l s)
  unfolding step push set_quit wakeup
  step-Progress n (other_pushes t) s o h = Progress-append q n s.phase s.queued s.started (t ∷ []) h
  step-Progress n other_quits s o h = h
  step-Progress n other_wakes s o h = woken s.owed
    where
      woken : (m : ℕ) → Then (ProgressOf n) (other_wake behaviour m s)
      woken zero = tt
      woken (suc m) = h
  step-Progress n l s o h = loop_step-Progress n l s.phase s refl o h

  steps-Progress :
      (n : ℕ) (ls : List (Label T)) (s s' : Run F T)
      → Ordered s
      → ProgressOf n s
      → steps behaviour ls s ≡ some s'
      → ProgressOf (rounds_from n ls) s'
  unfolding steps
  steps-Progress n [] s s' o h e = subst (Then (ProgressOf n)) e h
  steps-Progress n (l ∷ ls) s s' o h e =
      let (t, first, others) = >>=-eq-some (step behaviour l s) (λ t. steps behaviour ls t) e in
      steps-Progress (ends_round l n) ls t s'
        (Then-eq-some Ordered _ (step-Ordered behaviour l s o) first)
        (Then-eq-some (ProgressOf (ends_round l n)) _ (step-Progress n l s o h) first) others

  all_started : (n : ℕ) (s : Run F T) → 2 ≤ n → ProgressOf n s → Prefix q s.started
  all_started zero s le h = absurd (omega arith)
  all_started (suc zero) s le h = absurd (omega arith)
  all_started (suc (suc n)) s le h = h

-- Whatever the loop and the other threads do: when the loop has ended two more rounds, every task
-- that was queued before has been started, in the order of the queue, and before any task that was
-- queued since.
pub steps-started :
    {F : Eventfd} {T : Type 0} (behaviour : T → List (Action T)) (before since : List (Label T))
    (c : F.Counter) (me : ℕ) (s s' : Run F T)
    → steps behaviour before (started_run (create c me)) ≡ some s
    → steps behaviour since s ≡ some s'
    → 2 ≤ rounds_of since
    → Prefix s.queued s'.started
steps-started behaviour before since c me s s' reached e two =
    all_started behaviour s.queued (rounds_of since) s' two (
      steps-Progress behaviour s.queued 0 since s s' (steps-Ordered behaviour before c me s reached)
        ([], sym (append-nil s.queued)) e)
