-- ===== src/Poller/Poll.antt =====
-- `EpollPoller::poll` and `fillActiveChannels` (src/network/poller.cpp). `epoll_wait` is an argument:
-- what it returned. Channels are found by their addresses.
use mathlib.Core.List.{map}
use order_engine.Prelude.{
  ℕ, ◌*◌, ◌≤◌, ◌<◌, List, [], ◌∷◌, ◌++◌, ◌≡◌, refl, sym, ap, ◌∙◌, ◌==◌, if◌then◌else◌, arith,
  length, append_assoc, append-nil, ==_iff, Bool-cases, inl, inr,
}
use order_engine.Channel.{Channel}
use order_engine.Poller.{Epoll, Event, Poller, changed}

-- A negative result, or the events that were written.
pub data Wait : Type 0 where
  failure : Wait
  ready : List Event → Wait

abbrev pub Heap : Type 0
Heap = ℕ → Channel

unfoldable set_revents : Heap → Event → Heap
set_revents h e = changed e.ptr (record (h e.ptr) { revents = e.events }) h

unfoldable pub fill_active_channels : List Event → Heap → List ℕ → Heap × List ℕ
unfolding set_revents
fill_active_channels [] h active = (h, active)
fill_active_channels (e ∷ es) h active =
    fill_active_channels es (set_revents h e) (active ++ e.ptr ∷ [])

module _ {E : Epoll} where
  -- `num_events > 0`: the list of events is doubled if it came back full.
  unfoldable grow : Poller E → ℕ → Poller E
  grow p n = if n == p.capacity then record p { capacity = p.capacity * 2 } else p

  unfoldable pub poll : Poller E → Wait → Heap → List ℕ → Poller E × Heap × List ℕ
  unfolding fill_active_channels grow
  poll p failure h active = (p, h, active)
  poll p (ready []) h active = (p, h, active)
  poll p (ready (e ∷ es)) h active =
      let (h', active') = fill_active_channels (e ∷ es) h active in
      (grow p (length (e ∷ es)), h', active')

-- The mask of the last event that names the channel, or else the one that it had.
abbrev pub reported : ℕ → ℕ → List Event → ℕ
reported a old [] = old
reported a old (e ∷ es) = reported a (if e.ptr == a then e.events else old) es

-- The addresses that the events name.
abbrev pub named : List Event → List ℕ
named = map λ e. e.ptr

pub fill-active :
    (es : List Event) (h : Heap) (active : List ℕ)
    → (fill_active_channels es h active).1 ≡ active ++ named es
unfolding fill_active_channels
fill-active [] h active = sym (append-nil active)
fill-active (e ∷ es) h active =
    fill-active es (set_revents h e) (active ++ e.ptr ∷ [])
    ∙ append_assoc active (e.ptr ∷ []) (named es)

set_revents_at :
    (h : Heap) (e : Event) (a : ℕ)
    → set_revents h e a ≡ record (h a) { revents = if e.ptr == a then e.events else (h a).revents }
unfolding set_revents
set_revents_at h e a = elim (Bool-cases (e.ptr == a)) [
  | inl q ↦ ground (arith, q, ap h ((==_iff e.ptr a).0 q))
  | inr q ↦ rw q refl
]

pub fill-heap :
    (es : List Event) (h : Heap) (active : List ℕ) (a : ℕ)
    → (fill_active_channels es h active).0 a
      ≡ record (h a) { revents = reported a (h a).revents es }
unfolding fill_active_channels
fill-heap [] h active a = refl
fill-heap (e ∷ es) h active a =
    fill-heap es (set_revents h e) (active ++ e.ptr ∷ []) a
    ∙ ap (λ (c : Channel). record c { revents = reported a c.revents es }) (set_revents_at h e a)

-- After `epoll_wait` gave `es`, no more than there was room for, of which there was some: the
-- channels named are appended to the active ones in order, each channel has the mask last reported
-- for it and is else unchanged, and the list of events is never made shorter and has room for more
-- than `es`.
poll_ready :
    {E : Epoll} (p : Poller E) (es : List Event) (h : Heap) (active : List ℕ)
    → 0 < p.capacity
    → length es ≤ p.capacity
    → let (p', h', active') = poll p (ready es) h active in
      (active' ≡ active ++ named es)
      × ((a : ℕ) → h' a ≡ record (h a) { revents = reported a (h a).revents es })
      × (p.capacity ≤ p'.capacity)
      × (length es < p'.capacity)
      × (p'.kernel ≡ p.kernel)
unfolding poll
poll_ready p [] h active pos fits =
    (sym (append-nil active), λ a. refl, omega arith, omega arith, refl)
poll_ready p (e ∷ es) h active pos fits = (
  fill-active (e ∷ es) h active,
  fill-heap (e ∷ es) h active,
  ground arith,
  ground arith,
  ground arith,
)
