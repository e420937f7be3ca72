-- ===== src/Reactor/Schedule/Loop.antt =====
-- `Reactor::loop` (src/network/reactor.cpp) by itself runs a schedule of its steps.
use order_engine.Prelude.{
  ℕ, Bool, false, Option, some, none, List, [], ◌∷◌, ◌++◌, ◌≡◌, refl, ap, sym, ◌∙◌, subst, inl, inr,
  if◌then◌else◌, ◌>>=◌, Bool-cases, arith,
}
use order_engine.Reactor.{
  Eventfd, Reactor, Action, Active, wakeup_channel, other_channel, is_in_loop_thread, acts,
  take_tasks, end_tasks, handle_wakeup, run_tasks, do_pending_tasks, handle, handle_all, rounds,
  loop,
}
use order_engine.Reactor.Threads.{acts-thread_id, handle_all-thread_id, do_pending_tasks-thread_id}
use order_engine.Reactor.Schedule.{
  Phase, polling, handling, draining, stopped, Run, Label, poll_returns, wakeup_handled,
  handler_acts, tasks_taken, task_runs, tasks_end, started_run, loop_acts, loop_step, step, steps,
}

module _ {F : Eventfd} {T : Type 0} where
  module _ (behaviour : T → List (Action T)) where
    -- Some steps of the loop lead to this phase with this reactor.
    abbrev Reaches : Run F T → Phase T → Reactor F T → Type 0
    Reaches s ph r =
        (ls : List (Label T)) × (s' : Run F T) × (steps behaviour ls s ≡ some s')
        × (s'.phase ≡ ph)
        × (s'.reactor ≡ r)

    after :
        (l : Label T) (s t : Run F T) (ph : Phase T) (r : Reactor F T)
        → step behaviour l s ≡ some t
        → Reaches t ph r
        → Reaches s ph r
    unfolding steps
    after l s t ph r e (ls, u, es, at_ph, at_r) = (l ∷ ls, u, rw e es, at_ph, at_r)

    steps-append :
        (ls ms : List (Label T)) (s : Run F T)
        → steps behaviour (ls ++ ms) s ≡ (steps behaviour ls s >>= λ t. steps behaviour ms t)
    unfolding steps
    steps-append [] ms s = refl
    steps-append (l ∷ ls) ms s = through (steps-append ls ms) (step behaviour l s)
      where
        through :
            ((t : Run F T)
              → steps behaviour (ls ++ ms) t ≡ (steps behaviour ls t >>= λ u. steps behaviour ms u))
            → (o : Option (Run F T))
            → (o >>= λ t. steps behaviour (ls ++ ms) t)
              ≡ ((o >>= λ t. steps behaviour ls t) >>= λ t. steps behaviour ms t)
        through known none = refl
        through known (some t) = known t

    -- Reaching one place, and then another from there.
    chain :
        (s : Run F T) (ph ph' : Phase T) (r r' : Reactor F T)
        → Reaches s ph r
        → ((t : Run F T) → t.phase ≡ ph → t.reactor ≡ r → Reaches t ph' r')
        → Reaches s ph' r'
    chain s ph ph' r r' (ls, t, es, at_ph, at_r) k =
        let (ms, u, es', last, is_r) = k t at_ph at_r in
        (
          ls ++ ms,
          u,
          steps-append ls ms s ∙ ap (λ o. o >>= λ t. steps behaviour ms t) es ∙ es',
          last,
          is_r,
        )

    handle_all-Reaches :
        (me : ℕ) (es : List (Active T)) (s : Run F T)
        → s.phase ≡ handling
        → s.reactor.thread_id ≡ me
        → Reaches s handling (handle_all behaviour me es s.reactor)
    unfolding handle_all handle steps loop_acts handle_wakeup
    handle_all-Reaches me [] s at_ph mine = ([], s, refl, at_ph, refl)
    handle_all-Reaches me (wakeup_channel ∷ es) s at_ph mine =
        let t = record s { reactor = handle_wakeup s.reactor } in
        after wakeup_handled s t handling _
          (unfold step loop_step in ap (λ ph. loop_step behaviour wakeup_handled ph s) at_ph)
          (handle_all-Reaches me es t at_ph mine)
    handle_all-Reaches me (other_channel xs ∷ es) s at_ph mine =
        subst (λ m. Reaches s handling (handle_all behaviour me es (acts m xs s.reactor))) mine
          (after (handler_acts xs) s (loop_acts xs s) handling _
            (unfold step loop_step in ap (λ ph. loop_step behaviour (handler_acts xs) ph s) at_ph)
            (handle_all-Reaches me es (loop_acts xs s) at_ph
              (acts-thread_id s.reactor.thread_id xs s.reactor ∙ mine)))

    run_tasks-Reaches :
        (me : ℕ) (ts : List T) (s : Run F T)
        → s.phase ≡ draining ts
        → s.reactor.thread_id ≡ me
        → Reaches s (draining []) (run_tasks behaviour me ts s.reactor)
    unfolding run_tasks steps loop_acts
    run_tasks-Reaches me [] s at_ph mine = ([], s, refl, at_ph, refl)
    run_tasks-Reaches me (t ∷ ts) s at_ph mine =
        let u =
          loop_acts (behaviour t)
            (record s { phase = draining ts; started = s.started ++ t ∷ [] }) in
        subst
          (λ m.
            Reaches s (draining []) (run_tasks behaviour me ts (acts m (behaviour t) s.reactor)))
          mine
          (after task_runs s u (draining []) _
            (unfold step loop_step in ap (λ ph. loop_step behaviour task_runs ph s) at_ph)
            (run_tasks-Reaches me ts u refl
              (acts-thread_id s.reactor.thread_id (behaviour t) s.reactor ∙ mine)))

    -- Where the loop is between its rounds.
    abbrev between : Reactor F T → Phase T
    between r = if r.quitting then stopped else polling

    do_pending_tasks-Reaches :
        (me : ℕ) (s : Run F T)
        → s.phase ≡ handling
        → s.reactor.thread_id ≡ me
        → let r = do_pending_tasks behaviour me s.reactor in Reaches s (between r) r
    unfolding do_pending_tasks
    do_pending_tasks-Reaches me s at_ph mine =
        let r = run_tasks behaviour me s.reactor.pending_tasks (take_tasks s.reactor) in
        let t = record s {
          phase = draining s.reactor.pending_tasks;
          reactor = take_tasks s.reactor;
        } in
        after tasks_taken s t (between (end_tasks r)) (end_tasks r)
          (unfold step loop_step in ap (λ ph. loop_step behaviour tasks_taken ph s) at_ph)
          (chain t (draining []) (between (end_tasks r)) r (end_tasks r)
            (run_tasks-Reaches me s.reactor.pending_tasks t refl (unfold take_tasks in mine))
            (λ u at_u is_r. (
              tasks_end ∷ [],
              record u { reactor = end_tasks u.reactor; phase = between u.reactor },
              unfold steps step loop_step in
                  ap (λ ph. loop_step behaviour tasks_end ph u >>= λ v. some v) at_u,
              unfold end_tasks in ap between is_r,
              ap end_tasks is_r,
            )))

    round-Reaches :
        (me : ℕ) (es : List (Active T)) (s : Run F T)
        → s.phase ≡ polling
        → s.reactor.thread_id ≡ me
        → let r = do_pending_tasks behaviour me (handle_all behaviour me es s.reactor) in
          Reaches s (between r) r
    round-Reaches me es s at_ph mine =
        let h = handle_all behaviour me es s.reactor in
        let r = do_pending_tasks behaviour me h in
        let t = record s { phase = handling } in
        after poll_returns s t (between r) r
          (unfold step loop_step in ap (λ ph. loop_step behaviour poll_returns ph s) at_ph)
          (chain t handling (between r) h r (handle_all-Reaches me es t refl mine) (λ u at_u is_h.
            subst
              (λ x.
                Reaches u (between (do_pending_tasks behaviour me x))
                  (do_pending_tasks behaviour me x))
              is_h
              (do_pending_tasks-Reaches me u at_u (
                ap (λ x. x.thread_id) is_h
                ∙ handle_all-thread_id behaviour me es s.reactor
                ∙ mine))))

    rounds-Reaches :
        (me : ℕ) (ess : List (List (Active T))) (s : Run F T)
        → s.phase ≡ between s.reactor
        → s.reactor.thread_id ≡ me
        → let r = rounds behaviour me ess s.reactor in Reaches s (between r) r
    unfolding rounds steps
    rounds-Reaches me [] s at_ph mine = ([], s, refl, at_ph, refl)
    rounds-Reaches me (es ∷ ess) s at_ph mine =
        let r = do_pending_tasks behaviour me (handle_all behaviour me es s.reactor) in
        let Goal : Bool → Type 0 = λ b.
          let x = (if b then s.reactor else rounds behaviour me ess r) in Reaches s (between x) x in
        elim (Bool-cases s.reactor.quitting) [
          | inl quits_now ↦ subst Goal (sym quits_now) ([], s, refl, at_ph, refl)
          | inr on ↦ subst Goal (sym on) (
              chain s (between r) (between (rounds behaviour me ess r)) r
                (rounds behaviour me ess r)
                (round-Reaches me es s (at_ph ∙ ap (λ b. if b then stopped else polling) on) mine)
                (λ u at_u is_r.
                  subst
                    (λ x.
                      Reaches u (between (rounds behaviour me ess x)) (rounds behaviour me ess x))
                    is_r
                    (rounds-Reaches me ess u (at_u ∙ ap between (sym is_r)) (
                      ap (λ x. x.thread_id) is_r
                      ∙ do_pending_tasks-thread_id behaviour me
                          (handle_all behaviour me es s.reactor)
                      ∙ handle_all-thread_id behaviour me es s.reactor
                      ∙ mine))))
        ]

    -- Every run of `loop()` is a schedule of its steps, with no step of another thread among them:
    -- it leads to the reactor that `loop()` leaves, in `poll` or behind the loop as the reactor was
    -- told to quit or not. It starts where no assertion fails.
    pub loop-steps :
        (me : ℕ) (ess : List (List (Active T))) (r r' : Reactor F T)
        → loop behaviour me ess r ≡ some r'
        → (ls : List (Label T)) × (s : Run F T) × (steps behaviour ls (started_run r) ≡ some s)
          × (s.phase ≡ (if r'.quitting then stopped else polling))
          × (s.reactor ≡ r')
    unfolding loop is_in_loop_thread
    loop-steps me ess r r' h =
        let (off, mine, is_r) : (r.quitting ≡ false)
            × (r.thread_id ≡ me)
            × (rounds behaviour me ess r ≡ r') =
          ground arith in
        subst (λ x. Reaches (started_run r) (between x) x) is_r
          (rounds-Reaches me ess (started_run r)
            (ap (λ b. if b then stopped else polling) (sym off)) mine)
