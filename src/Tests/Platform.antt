-- ===== src/Tests/Platform.antt =====
-- The two platforms: src/network/poller.cpp and src/network/channel.cpp at concrete inputs.
use order_engine.Prelude.{ℕ, ◌+◌, ◌≡◌, refl, arith, none, List, [], ◌∷◌, lookup}
use order_engine.Channel.{
  enable_reading, enable_writing, disable_reading, disable_all, is_none_event,
}
use order_engine.Platform.{run, replay, Agrees, no_wants}
use order_engine.Platform.Agree.{run-fresh-Agrees}
use order_engine.Platform.Linux.{linux}
use order_engine.Platform.Windows
use order_engine.Platform.Windows.{windows}
use order_engine.Registry
use order_engine.Registry.{Call, changes, removes}
use order_engine.Tests.Epoll.{memory, memory-IsEpoll}

-- The channel 2 comes and goes, 3 reads and writes.
abbrev calls : List (ℕ × Call)
calls =
    (2, changes enable_reading)
    ∷ (3, changes enable_reading)
    ∷ (3, changes enable_writing)
    ∷ (2, changes disable_all)
    ∷ (2, removes)
    ∷ (4, changes disable_reading)
    ∷ []

run-fresh-Agrees_example :
    Agrees
      (linux memory)
      (run (linux memory) calls (Registry.fresh [] 1 (λ i. i + 100) (λ i. i + 5)))
      (replay calls (λ i. no_wants))
    × Agrees windows
        (run windows calls (Windows.fresh 1 (λ i. i + 5)))
        (replay calls (λ i. no_wants))
unfolding lookup
run-fresh-Agrees_example =
    run-fresh-Agrees memory-IsEpoll (2 ∷ 3 ∷ 4 ∷ []) calls [] 1 (λ i. i + 100) (λ i. i + 5)
      (omega arith) (refl, (refl, (refl, (refl, (refl, (refl, tt)))))) (λ j. refl)
      (λ i j e. omega (arith, e))

-- A channel that reads cannot be removed.
abbrev too_early : List (ℕ × Call)
too_early = (2, changes enable_reading) ∷ (2, removes) ∷ []

fails :
    (replay too_early (λ i. no_wants) ≡ none)
    × (run windows too_early (Windows.fresh 1 (λ i. i + 5)) ≡ none)
unfolding replay run Windows.fresh Windows.change_channel Windows.remove
    Windows.reactor_update_channel Windows.change_mask is_none_event
fails = (refl, refl)
