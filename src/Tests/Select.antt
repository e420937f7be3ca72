-- ===== src/Tests/Select.antt =====
-- A `SelectPoller`: src/network/poller.cpp at concrete inputs.
use order_engine.Prelude.{
  ℕ, ◌+◌, ◌∙◌, ◌≡◌, refl, ap, true, List, [], ◌∷◌, ◌++◌, ◌==◌, if◌then◌else◌, arith,
}
use order_engine.Channel.{new, has}
use order_engine.Poller.Select.{
  Heap, FdSets, is_set, fd_set, Selected, ready, SelectPoller, poll, fill_sets, collect, no_fds,
  revents_of, is_reading, is_writing, read_event, write_event,
}
use order_engine.Poller.Select.Table.{IsDistinct}
use order_engine.Poller.Select.Ready.{IsSelection, with_events, reported, member, poll-ready}

-- Channels with the descriptors from 5 on; the one at the address 2 wants to read.
abbrev channels : Heap
channels a = record {
  owner = 1;
  fd = a + 5;
  events = if a == 2 then 1 else 0;
  revents = 0;
  index = new;
  address = a;
}

distinct : IsDistinct channels
distinct a b e = omega (arith, e)

-- `select` finds everything that it is asked to read.
abbrev readable_now : FdSets → Selected
readable_now s = ready (record { read = s.read; write = []; except = [] })

abbrev two_channels : SelectPoller
two_channels = record { channels = (7, 2) ∷ (8, 3) ∷ []; polled_channels = 2 ∷ 3 ∷ [] }

abbrev left : FdSets
left = record { read = (fill_sets channels (2 ∷ 3 ∷ []) no_fds).read; write = []; except = [] }

abbrev ready_left : Selected → List ℕ
ready_left (ready s) = s.read
ready_left _ = []

abbrev ready_written : Selected → List ℕ
ready_written (ready s) = s.write
ready_written _ = []

readable_now-IsSelection : IsSelection readable_now
readable_now-IsSelection asked rest e j = (
  λ r. ap (λ s. is_set j (ready_left s)) e ∙ r,
  λ w. (let none_left = ap (λ s. is_set j (ready_written s)) e in absurd (cc)),
)

-- The channel at the address 2 becomes active, and no other one.
finds_one : (poll readable_now two_channels channels []).1 ≡ 2 ∷ []
unfolding poll fill_sets collect revents_of is_reading is_writing fd_set
finds_one = refl

poll-ready_example :
    let (h', active') = poll readable_now two_channels channels [] in
    (active' ≡ [] ++ with_events left channels (2 ∷ 3 ∷ []))
    × ((a : ℕ) → h' a ≡ reported left (member a (2 ∷ 3 ∷ [])) (channels a))
    × ((a : ℕ)
        → (has (revents_of left (channels a).fd) read_event ≡ true → is_reading (channels a) ≡ true)
          × (has (revents_of left (channels a).fd) write_event ≡ true
              → is_writing (channels a) ≡ true))
poll-ready_example =
    poll-ready readable_now two_channels channels [] left readable_now-IsSelection distinct
      (λ e. absurd (cc)) refl
