-- ===== src/Reactor/Schedule/Alert.antt =====
-- No wakeup of a reactor's loop is lost (src/network/reactor.cpp).
use order_engine.Prelude.{
  ℕ, zero, suc, ◌<◌, true, false, not, ◌||◌, some, List, [], ◌∷◌, ◌≡◌, refl, ◌∙◌, ◌⊎◌, inl, inr,
  if◌then◌else◌, Then, >>=-Then, Then-eq-some, arith, Bool-cases,
}
use order_engine.Reactor.{
  Eventfd, IsEventfd, Reactor, Action, queues, quits, create, is_in_loop_thread, push, wakeup,
  queue_in_loop, set_quit, quit, act, acts, take_tasks, end_tasks, handle_wakeup,
}
use order_engine.Reactor.Schedule.{
  Phase, polling, handling, draining, Run, Label, poll_returns, wakeup_handled, handler_acts,
  tasks_taken, task_runs, tasks_end, other_pushes, other_quits, other_wakes, started_run, loop_acts,
  loop_step, other_wake, step, steps,
}

module _ {F : Eventfd} {T : Type 0} (law : IsEventfd F) where
  -- While tasks run, one that waits has woken the loop, or `Q`.
  abbrev Draining : Type 0 → Reactor F T → Type 0
  Draining Q r =
      (r.calling_pending_tasks ≡ true)
      × ((r.pending_tasks ≡ []) ⊎ ((F.readable r.wakeup_fd ≡ true) ⊎ Q))

  act-Draining :
      (Q : Type 0) (me : ℕ) (a : Action T) (r : Reactor F T)
      → Draining Q r
      → Draining Q (act me a r)
  unfolding act queue_in_loop quit push set_quit wakeup
  act-Draining Q me (queues t) r (calling, h) =
      elim (is_in_loop_thread me r)
        as (λ b.
          Draining Q (if not b || r.calling_pending_tasks then wakeup (push t r) else push t r)) [
            | false ↦ (calling, inr (inl (law.readable-write r.wakeup_fd)))
            | true ↦ rw calling (refl, inr (inl (law.readable-write r.wakeup_fd)))
          ]
  act-Draining Q me quits r (calling, h) =
      elim (is_in_loop_thread me r)
        as (λ b. Draining Q (if not b then wakeup (set_quit r) else set_quit r)) [
          | false ↦ (calling, inr (inl (law.readable-write r.wakeup_fd)))
          | true ↦ (calling, h)
        ]

  acts-Draining :
      (Q : Type 0) (me : ℕ) (xs : List (Action T)) (r : Reactor F T)
      → Draining Q r
      → Draining Q (acts me xs r)
  unfolding acts
  acts-Draining Q me [] r h = h
  acts-Draining Q me (a ∷ xs) r h = acts-Draining Q me xs (act me a r) (act-Draining Q me a r h)

  -- Before the loop blocks in `poll`: nothing waits, or `poll` will return at once, or another
  -- thread is about to wake the loop.
  abbrev AlertIn : Phase T → Reactor F T → ℕ → Type 0
  AlertIn polling r owed =
      ((r.pending_tasks ≡ []) × (r.quitting ≡ false))
      ⊎ ((F.readable r.wakeup_fd ≡ true) ⊎ (0 < owed))
  AlertIn (draining ts) r owed = Draining (0 < owed) r
  AlertIn _ r owed = Unit

  abbrev Alert : Run F T → Type 0
  Alert s = AlertIn s.phase s.reactor s.owed

  module _ (behaviour : T → List (Action T)) where
    loop_step-Alert :
        (l : Label T) (ph : Phase T) (s : Run F T)
        → s.phase ≡ ph
        → AlertIn ph s.reactor s.owed
        → Then Alert (loop_step behaviour l ph s)
    unfolding loop_step handle_wakeup take_tasks end_tasks loop_acts
    loop_step-Alert poll_returns polling s e h = tt
    loop_step-Alert wakeup_handled handling s e h = rw e tt
    loop_step-Alert (handler_acts xs) handling s e h = rw e tt
    loop_step-Alert tasks_taken handling s e h = (refl, inl refl)
    loop_step-Alert task_runs (draining (t ∷ ts)) s e h =
        acts-Draining (0 < s.owed) s.reactor.thread_id (behaviour t) s.reactor h
    loop_step-Alert tasks_end (draining []) s e (calling, h) =
        elim (Bool-cases s.reactor.quitting) [
          | inl q ↦ rw q tt
          | inr q ↦ rw q (elim h [ inl none_wait ↦ inl (none_wait, refl) | inr woken ↦ inr woken ])
        ]
    loop_step-Alert _ _ s e h = tt

    -- Another thread has something to wake the loop for.
    owed-Alert :
        (ph : Phase T) (r r' : Reactor F T) (owed owed' : ℕ)
        → r'.calling_pending_tasks ≡ r.calling_pending_tasks
        → (F.readable r'.wakeup_fd ≡ true) ⊎ (0 < owed')
        → AlertIn ph r owed
        → AlertIn ph r' owed'
    owed-Alert polling r r' owed owed' e w h = inr w
    owed-Alert (draining ts) r r' owed owed' e w h = (e ∙ h.0, inr w)
    owed-Alert _ r r' owed owed' e w h = tt

    step-Alert : (l : Label T) (s : Run F T) → Alert s → Then Alert (step behaviour l s)
    unfolding step push set_quit wakeup
    step-Alert (other_pushes t) s h =
        owed-Alert s.phase s.reactor (push t s.reactor) s.owed (suc s.owed) refl (inr (omega arith))
          h
    step-Alert other_quits s h =
        owed-Alert s.phase s.reactor (set_quit s.reactor) s.owed (suc s.owed) refl
          (inr (omega arith)) h
    step-Alert other_wakes s h = woken s.owed
      where
        woken : (n : ℕ) → Then Alert (other_wake behaviour n s)
        woken zero = tt
        woken (suc n) =
            owed-Alert s.phase s.reactor (wakeup s.reactor) s.owed n refl
              (inl (law.readable-write s.reactor.wakeup_fd)) h
    step-Alert l s h = loop_step-Alert l s.phase s refl h

    all-Alert : (ls : List (Label T)) (s : Run F T) → Alert s → Then Alert (steps behaviour ls s)
    unfolding steps
    all-Alert [] s h = h
    all-Alert (l ∷ ls) s h = >>=-Then Alert Alert _ _ (step-Alert l s h) (all-Alert ls)

    -- Whatever the loop and the other threads do, in any order of their steps: if the loop is in
    -- `poll`, every other thread has made its call of `wakeup` and the eventfd is not readable,
    -- then no task waits and the reactor was not told to quit. So `poll` never blocks on work;
    -- if the eventfd does what it documents.
    pub steps-Alert :
        (ls : List (Label T)) (c : F.Counter) (me : ℕ) (s : Run F T)
        → steps behaviour ls (started_run (create c me)) ≡ some s
        → s.phase ≡ polling
        → s.owed ≡ 0
        → F.readable s.reactor.wakeup_fd ≡ false
        → (s.reactor.pending_tasks ≡ []) × (s.reactor.quitting ≡ false)
    unfolding create
    steps-Alert ls c me s e p o unreadable =
        let alert =
          Then-eq-some Alert _ (all-Alert ls (started_run (create c me)) (inl (refl, refl))) e in
        elim (rw p at alert) [
          | inl idle ↦ idle
          | inr (inl readable) ↦ absurd (cc)
          | inr (inr waiting) ↦ absurd (omega arith)
        ]
