-- ===== src/Platform/Agree.antt =====
-- The two platforms side by side (src/network/poller.cpp, src/network/channel.cpp).
use order_engine.Prelude.{ℕ, none, true, length, ◌≤◌, All, List, ◌≡◌, refl}
use mathlib.Core.Path.{fun_ext}
use order_engine.Platform.{run, replay, run-replay, Agrees, no_wants}
use order_engine.Platform.Linux
use order_engine.Platform.Linux.{linux, linux-IsPlatform}
use order_engine.Platform.Windows
use order_engine.Platform.Windows.{windows}
use order_engine.Platform.Windows.Laws
use order_engine.Platform.Windows.Laws.{windows-IsPlatform}
use order_engine.Poller.{Epoll, IsEpoll}
use order_engine.Poller.Select.{fill_sets, fd_setsize, is_set}
use order_engine.Registry
use order_engine.Registry.{Call}

-- On a new reactor, with channels for different descriptors, any calls of `enableReading()` and its
-- kin and of `remove()` in the loop's thread, on at most `FD_SETSIZE` channels, have the same outcome
-- on Linux and on Windows: they fail at the first `remove()` of a channel that still reads or writes,
-- and else the next `poll` asks for reading and for writing of each channel exactly as the calls for
-- it say; if `epoll_ctl` does what it documents.
pub run-fresh-Agrees :
    {E : Epoll} (laws : IsEpoll E) (channels : List ℕ) (xs : List (ℕ × Call)) (k : E.Kernel)
    (reactor : ℕ) (address fd : ℕ → ℕ)
    → length channels ≤ fd_setsize
    → All (λ x. is_set x.0 channels ≡ true) xs
    → ((j : ℕ) → E.interest k j ≡ none)
    → ((i j : ℕ) → fd i ≡ fd j → i ≡ j)
    → Agrees
        (linux E)
        (run (linux E) xs (Registry.fresh k reactor address fd))
        (replay xs (λ i. no_wants))
      × Agrees windows (run windows xs (Windows.fresh reactor fd)) (replay xs (λ i. no_wants))
unfolding Registry.fresh Windows.fresh fill_sets
run-fresh-Agrees {E} laws channels xs k reactor address fd room known idle distinct =
    let ready = Linux.fresh-Ready laws k reactor address fd idle distinct in
    let ready' = Laws.fresh-Ready channels reactor fd distinct in
    (
      run-replay (linux E) (linux-IsPlatform laws channels) xs _ _ known ready
          (fun_ext λ i. rw (idle (fd i)) refl),
      run-replay windows (windows-IsPlatform channels room) xs _ _ known ready' (fun_ext λ i. refl),
    )
