-- ===== src/Tests/Poller.antt =====
-- Channels and the poller: src/network/channel.cpp and src/network/poller.cpp at concrete inputs.
use order_engine.Prelude.{
  All, ℕ, ◌+◌, true, Option, none, some, List, [], ◌∷◌, ◌≡◌, refl, lookup, insert, erase, nat_eq,
  arith,
}
use order_engine.Channel
use order_engine.Channel.{
  Channel, added, deleted, new, enable_reading, enable_writing, disable_all, change_events,
  is_reading, is_writing, is_none_event,
}
use order_engine.Poller.{Event, event_of, update_channel, remove_channel}
use order_engine.Poller.Poll.{Heap, ready, poll}
use order_engine.Poller.Watch.{watched, recorded}
use order_engine.Registry.{
  World, Call, construct, destroy, changes, removes, run, fresh, change_channel, remove, call,
  reactor_update_channel, reactor_remove_channel,
}
use order_engine.Registry.Active.{IsReported, IsWanted, run-fresh-active}
use order_engine.Registry.Watched.{run-fresh-watched}
use order_engine.Tests.Epoll.{memory, memory_ctl, memory-IsEpoll}

-- A reactor with channels on all descriptors from 5 on.
abbrev start : World memory
start = fresh {E = memory} [] 1 (λ i. i + 100) (λ i. i + 5)

abbrev calls : List (ℕ × Call)
calls =
    (0, changes enable_reading)
    ∷ (2, changes enable_writing)
    ∷ (0, changes enable_writing)
    ∷ (2, changes disable_all)
    ∷ (2, removes)
    ∷ (0, changes disable_all)
    ∷ (0, changes disable_all)
    ∷ []

abbrev or_start : Option (World memory) → World memory
or_start none = start
or_start (some w) = w

-- The second `disableAll()` puts the channel back, with no events.
after_calls :
    (lookup 5 (or_start (run true start calls)).poller.kernel
      ≡ some (record { events = 0; ptr = 100 }))
    × (lookup 7 (or_start (run true start calls)).poller.kernel ≡ none)
unfolding run call change_channel remove reactor_update_channel reactor_remove_channel fresh
    change_events update_channel remove_channel is_none_event memory_ctl lookup insert erase
after_calls = (refl, refl)

run-fresh-watched_example :
    let c = (or_start (run true start calls)).chan 0 in
    (memory.interest (or_start (run true start calls)).poller.kernel c.fd
      ≡ watched c.index (event_of c))
    × (lookup c.fd (or_start (run true start calls)).poller.channels ≡ recorded c.index c.address)
unfolding run call change_channel remove reactor_update_channel reactor_remove_channel fresh
    change_events update_channel remove_channel is_none_event memory_ctl lookup insert erase
run-fresh-watched_example =
    run-fresh-watched memory-IsEpoll [] 1 (λ i. i + 100) (λ i. i + 5) true calls
      (or_start (run true start calls)) (λ j. refl) (λ i j e. omega arith) refl 0

abbrev channel_at : Heap
channel_at a = Channel.create a 1 (a + 5)

-- The channels 0 and 2 wait to read and to write.
abbrev two_calls : List (ℕ × Call)
two_calls = (0, changes enable_reading) ∷ (2, changes enable_writing) ∷ []

abbrev waiting : World memory
waiting = or_start (run true start two_calls)

two_calls_made : run true start two_calls ≡ some waiting
unfolding run call change_channel reactor_update_channel fresh change_events update_channel
    memory_ctl lookup insert
two_calls_made = refl

-- One is readable, and the peer of the other one hung up.
abbrev events : List Event
events = record { events = 1; ptr = 100 } ∷ record { events = 16; ptr = 102 } ∷ []

events-IsReported : All (IsReported memory waiting.poller.kernel) events
unfolding run call change_channel reactor_update_channel fresh change_events update_channel
    is_none_event memory_ctl lookup insert
events-IsReported = (
  (5, record { events = 3; ptr = 100 }, refl, refl, λ r. refl, λ r. absurd (cc)),
  ((7, record { events = 4; ptr = 102 }, refl, refl, λ r. absurd (cc), λ r. refl), tt),
)

run-fresh-active_example :
    ((poll waiting.poller (ready events) (λ a. waiting.chan 0) []).2 ≡ 100 ∷ 102 ∷ [])
    × All (IsWanted waiting) events
run-fresh-active_example =
    run-fresh-active memory-IsEpoll [] 1 (λ i. i + 100) (λ i. i + 5) true two_calls waiting events
      (λ a. waiting.chan 0) (λ j. unfold lookup in refl) (λ i j e. omega arith) two_calls_made
      events-IsReported

-- A new reactor watches its eventfd, and its destructor leaves nothing.
created : Option (World memory)
created = construct (some 9) [] 1 (λ i. i + 100) (λ i. i + 20)

watches_eventfd :
    lookup 9 (or_start created).poller.kernel ≡ some (record { events = 3; ptr = 100 })
unfolding created construct run call change_channel reactor_update_channel fresh change_events
    update_channel is_none_event memory_ctl lookup insert
watches_eventfd = refl

destroyed : lookup 9 (or_start (destroy true (or_start created) 0)).poller.kernel ≡ none
unfolding created construct destroy change_channel remove reactor_update_channel
    reactor_remove_channel fresh change_events update_channel remove_channel is_none_event
    memory_ctl lookup insert erase
destroyed = refl
