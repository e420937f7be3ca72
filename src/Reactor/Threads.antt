-- ===== src/Reactor/Threads.antt =====
-- No call changes the thread of a reactor (src/network/reactor.cpp).
use order_engine.Prelude.{ℕ, List, [], ◌∷◌, ◌≡◌, refl, ◌∙◌, arith}
use order_engine.Reactor.{
  Eventfd, Reactor, Action, queues, quits, Active, wakeup_channel, other_channel, push, wakeup,
  queue_in_loop, set_quit, quit, act, acts, take_tasks, end_tasks, handle_wakeup, run_tasks,
  do_pending_tasks, handle, handle_all,
}

module _ {F : Eventfd} {T : Type 0} where
  act-thread_id : (me : ℕ) (a : Action T) (r : Reactor F T) → (act me a r).thread_id ≡ r.thread_id
  unfolding act queue_in_loop quit push set_quit wakeup
  act-thread_id me (queues t) r = ground arith
  act-thread_id me quits r = ground arith

  pub acts-thread_id :
      (me : ℕ) (xs : List (Action T)) (r : Reactor F T) → (acts me xs r).thread_id ≡ r.thread_id
  unfolding acts
  acts-thread_id me [] r = refl
  acts-thread_id me (a ∷ xs) r = acts-thread_id me xs (act me a r) ∙ act-thread_id me a r

  module _ (behaviour : T → List (Action T)) where
    pub handle_all-thread_id :
        (me : ℕ) (es : List (Active T)) (r : Reactor F T)
        → (handle_all behaviour me es r).thread_id ≡ r.thread_id
    unfolding handle_all handle handle_wakeup
    handle_all-thread_id me [] r = refl
    handle_all-thread_id me (wakeup_channel ∷ es) r = handle_all-thread_id me es (handle_wakeup r)
    handle_all-thread_id me (other_channel xs ∷ es) r =
        handle_all-thread_id me es (acts me xs r) ∙ acts-thread_id me xs r

    run_tasks-thread_id :
        (me : ℕ) (ts : List T) (r : Reactor F T)
        → (run_tasks behaviour me ts r).thread_id ≡ r.thread_id
    unfolding run_tasks
    run_tasks-thread_id me [] r = refl
    run_tasks-thread_id me (t ∷ ts) r =
        run_tasks-thread_id me ts (acts me (behaviour t) r) ∙ acts-thread_id me (behaviour t) r

    pub do_pending_tasks-thread_id :
        (me : ℕ) (r : Reactor F T) → (do_pending_tasks behaviour me r).thread_id ≡ r.thread_id
    unfolding do_pending_tasks end_tasks take_tasks
    do_pending_tasks-thread_id me r = run_tasks-thread_id me r.pending_tasks (take_tasks r)
