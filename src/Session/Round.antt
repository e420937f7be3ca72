-- ===== src/Session/Round.antt =====
-- A round of a sub-reactor's loop over its connections: `loop` of src/network/reactor.cpp, with
-- `poll` of src/network/poller.cpp and the callbacks that src/network/tcp_server.cpp sets. The
-- wakeup channel and the tasks of the round are Reactor's.
use order_engine.Prelude.{
  ℕ, suc, ◌≤◌, ◌≡◌, refl, ap, ◌∙◌, inl, inr, Bool-cases, ==_iff, List, [], ◌∷◌, ◌==◌, if◌then◌else◌,
  arith,
}
use order_engine.Connection.{Connection, Handlers}
use order_engine.Poller.{Epoll, Event, Poller, changed}
use order_engine.Poller.Poll.{
  Heap, Wait, ready, fill_active_channels, poll, named, reported, fill-active, fill-heap,
}
use order_engine.Session.{Outcome, dispatch}

-- How often the list has the address.
abbrev pub times : ℕ → List ℕ → ℕ
times a [] = 0
times a (b ∷ bs) = if b == a then suc (times a bs) else times a bs

module _ {W : Type 0} (hs : ℕ → Handlers W) (io : ℕ → Outcome) where
  -- `handleEvent` on an active channel, with the mask that `poll` left in it. A connection is found
  -- by the address of its channel, `hs` has its
  -- callbacks, and `io` says what its system calls return.
  abbrev pub dispatch_at : Heap → ℕ → Connection × W → Connection × W
  dispatch_at h a s = dispatch (hs a) (h a) (record (io a) { revents = (h a).revents }) s

  unfoldable pub dispatch_active : Heap → List ℕ → (ℕ → Connection) × W → (ℕ → Connection) × W
  dispatch_active h [] s = s
  dispatch_active h (a ∷ active) (cs, w) =
      let (c, w') = dispatch_at h a (cs a, w) in dispatch_active h active (changed a c cs, w')

  -- `active_channels_.clear()`, `poll` and the loop over the active channels.
  unfoldable pub round :
      {E : Epoll}
      → Poller E
      → Wait
      → Heap
      → (ℕ → Connection) × W
      → Poller E × Heap × ((ℕ → Connection) × W)
  round p k h s = let (p', h', active) = poll p k h [] in (p', h', dispatch_active h' active s)

  dispatch_active-others :
      (h : Heap) (active : List ℕ) (s : (ℕ → Connection) × W) (a : ℕ)
      → times a active ≡ 0
      → (dispatch_active h active s).0 a ≡ s.0 a
  unfolding dispatch_active
  dispatch_active-others h [] s a never = refl
  dispatch_active-others h (b ∷ active) (cs, w) a never = elim (Bool-cases (b == a)) [
    | inl e ↦ absurd (cc (rw e at never))
    | inr e ↦
        let (c, w') = dispatch_at h b (cs b, w) in
        dispatch_active-others h active (changed b c cs, w') a (rw e at never) ∙ rw e refl
  ]

  dispatch_active-once :
      (h : Heap) (active : List ℕ) (s : (ℕ → Connection) × W) (a : ℕ)
      → times a active ≡ 1
      → (u : W) × ((dispatch_active h active s).0 a ≡ (dispatch_at h a (s.0 a, u)).0)
  unfolding dispatch_active
  dispatch_active-once h [] s a once = absurd (cc)
  dispatch_active-once h (b ∷ active) (cs, w) a once = elim (Bool-cases (b == a)) [
    | inl e ↦
        let (c, w') = dispatch_at h b (cs b, w) in
        let later : suc (times a active) ≡ 1 = rw e at once in
        (
          w,
          dispatch_active-others h active (changed b c cs, w') a (omega (arith, later))
              ∙ rw e refl
              ∙ ap (λ x. (dispatch_at h x (cs x, w)).0) ((==_iff b a).0 e),
        )
    | inr e ↦
        let (c, w') = dispatch_at h b (cs b, w) in
        let (u, q) = dispatch_active-once h active (changed b c cs, w') a (rw e at once) in
        (u, q ∙ rw e refl)
  ]

  poll-filled :
      {E : Epoll} (p : Poller E) (es : List Event) (h : Heap)
      → ((poll p (ready es) h []).1 ≡ (fill_active_channels es h []).0)
        × ((poll p (ready es) h []).2 ≡ named es)
  unfolding poll fill_active_channels
  poll-filled p [] h = (refl, refl)
  poll-filled p (e ∷ es) h = (refl, fill-active (e ∷ es) h [])

  -- In a round in which `epoll_wait` gave the events `es`, at most one of them for the channel with
  -- the address `a`: the connection of this channel is dispatched to once, with the mask of its event;
  -- or it stays as it was, where no event names it.
  pub round-each :
      {E : Epoll} (p : Poller E) (es : List Event) (h : Heap) (s : (ℕ → Connection) × W) (a : ℕ)
      → times a (named es) ≤ 1
      → let (p', h', s') = round p (ready es) h s in
        (u : W) × (s'.0 a ≡ (
          if times a (named es) == 0
          then s.0 a
          else (dispatch
              (hs a)
              (h a)
              (record (io a) { revents = reported a (h a).revents es })
              (s.0 a, u)).0))
  unfolding round dispatch
  round-each p es h s a few =
      let (filled, active) = poll-filled p es h in
      let h' = (fill_active_channels es h []).0 in
      let e = fill-heap es h [] a in
      rw (filled, active)
        (elim (Bool-cases (times a (named es) == 0)) [
          | inl never ↦
              let zero_times = (==_iff (times a (named es)) 0).0 never in
              (s.1, dispatch_active-others h' (named es) s a zero_times ∙ rw never refl)
          | inr some_time ↦
              let once : times a (named es) ≡ 1 = ground (arith, few, some_time) in
              let (u, q) = dispatch_active-once h' (named es) s a once in
              (u, q ∙ rw (e, some_time) refl)
        ])

-- What `epoll_wait`, the connections' system calls and their callbacks do in a round.
pub record Answers (W : Type 0) : Type 0 where
  pub wait : Wait
  pub io : ℕ → Outcome
  pub callbacks : ℕ → Handlers W

-- The rounds of the loop.
unfoldable pub rounds :
    {W : Type 0} {E : Epoll}
    → List (Answers W)
    → Poller E
    → Heap
    → (ℕ → Connection) × W
    → Poller E × Heap × ((ℕ → Connection) × W)
rounds [] p h s = (p, h, s)
rounds (x ∷ xs) p h s = let (p', h', s') = round x.callbacks x.io p x.wait h s in rounds xs p' h' s'
