-- ===== src/Reactor.antt =====
-- The loop and the tasks of a reactor: include/network/reactor.h and src/network/reactor.cpp. The
-- eventfd is a parameter. A task is a `T`, and `behaviour` says which calls it makes on its own
-- reactor, which is all that the reactor sees of it.
pub mod Threads
pub mod Schedule
pub mod Timers
use order_engine.Prelude.{
  ℕ, Bool, true, false, not, ◌&&◌, ◌||◌, Option, none, some, List, [], ◌∷◌, ◌++◌, ◌≡◌, ◌==◌,
  if◌then◌else◌,
}

-- The eventfd: `write` of 1, and `read`.
pub record Eventfd : Type 1 where
  pub Counter : Type 0
  pub readable : Counter → Bool
  pub write : Counter → Counter
  pub read : Counter → Counter

-- What eventfd(2) documents: after a `write` the counter is not 0, also where the write failed
-- because the counter is at its maximum.
pub record IsEventfd (F : Eventfd) : Type 0 where
  pub readable-write : (c : F.Counter) → F.readable (F.write c) ≡ true

-- The fields of `Reactor` besides the poller.
pub record Reactor (F : Eventfd) (T : Type 0) : Type 0 where
  pub thread_id : ℕ
  pub quitting : Bool
  pub calling_pending_tasks : Bool
  pub pending_tasks : List T
  pub wakeup_fd : F.Counter

-- A call that a task or a handler makes on its reactor.
pub data Action (T : Type 0) : Type 0 where
  queues : T → Action T
  quits : Action T

-- An active channel: the one of the eventfd, or another, with the calls that its handler makes.
pub data Active (T : Type 0) : Type 0 where
  wakeup_channel : Active T
  other_channel : List (Action T) → Active T

module _ {F : Eventfd} {T : Type 0} where
  -- `Reactor()`, in the thread `me`.
  unfoldable pub create : F.Counter → ℕ → Reactor F T
  create c me = record {
    thread_id = me;
    quitting = false;
    calling_pending_tasks = false;
    pending_tasks = [];
    wakeup_fd = c;
  }

  unfoldable pub is_in_loop_thread : ℕ → Reactor F T → Bool
  is_in_loop_thread me r = r.thread_id == me

  unfoldable pub wakeup : Reactor F T → Reactor F T
  wakeup r = record r { wakeup_fd = F.write r.wakeup_fd }

  unfoldable pub handle_wakeup : Reactor F T → Reactor F T
  handle_wakeup r = record r { wakeup_fd = F.read r.wakeup_fd }

  -- The part of `queueInLoop` under the lock.
  unfoldable pub push : T → Reactor F T → Reactor F T
  push t r = record r { pending_tasks = r.pending_tasks ++ t ∷ [] }

  unfoldable pub queue_in_loop : ℕ → T → Reactor F T → Reactor F T
  unfolding push
  queue_in_loop me t r =
      if not (is_in_loop_thread me r) || r.calling_pending_tasks
      then wakeup (push t r)
      else push t r

  unfoldable pub set_quit : Reactor F T → Reactor F T
  set_quit r = record r { quitting = true }

  unfoldable pub quit : ℕ → Reactor F T → Reactor F T
  quit me r = if not (is_in_loop_thread me r) then wakeup (set_quit r) else set_quit r

  unfoldable pub act : ℕ → Action T → Reactor F T → Reactor F T
  act me (queues t) r = queue_in_loop me t r
  act me quits r = quit me r

  unfoldable pub acts : ℕ → List (Action T) → Reactor F T → Reactor F T
  acts me [] r = r
  acts me (a ∷ xs) r = acts me xs (act me a r)

  -- `calling_pending_tasks_ = true`, and the swap.
  unfoldable pub take_tasks : Reactor F T → Reactor F T
  take_tasks r = record r { calling_pending_tasks = true; pending_tasks = [] }

  unfoldable pub end_tasks : Reactor F T → Reactor F T
  end_tasks r = record r { calling_pending_tasks = false }

  module _ (behaviour : T → List (Action T)) where
    unfoldable pub run_in_loop : ℕ → T → Reactor F T → Reactor F T
    run_in_loop me t r =
        if is_in_loop_thread me r then acts me (behaviour t) r else queue_in_loop me t r

    unfoldable pub run_tasks : ℕ → List T → Reactor F T → Reactor F T
    run_tasks me [] r = r
    run_tasks me (t ∷ ts) r = run_tasks me ts (acts me (behaviour t) r)

    unfoldable pub do_pending_tasks : ℕ → Reactor F T → Reactor F T
    do_pending_tasks me r = end_tasks (run_tasks me r.pending_tasks (take_tasks r))

    unfoldable pub handle : ℕ → Active T → Reactor F T → Reactor F T
    handle me wakeup_channel r = handle_wakeup r
    handle me (other_channel xs) r = acts me xs r

    unfoldable pub handle_all : ℕ → List (Active T) → Reactor F T → Reactor F T
    handle_all me [] r = r
    handle_all me (e ∷ es) r = handle_all me es (handle me e r)

    -- The rounds of `loop()`, each with the channels that `poll` found active.
    unfoldable pub rounds : ℕ → List (List (Active T)) → Reactor F T → Reactor F T
    rounds me [] r = r
    rounds me (es ∷ ess) r =
        let rest = rounds me ess (do_pending_tasks me (handle_all me es r)) in
        if r.quitting then r else rest

    -- `loop()` in the thread `me`, for as long as `poll` returned; `none` is a failed assertion.
    unfoldable pub loop : ℕ → List (List (Active T)) → Reactor F T → Option (Reactor F T)
    loop me ess r =
        if not r.quitting && is_in_loop_thread me r then some (rounds me ess r) else none
