-- ===== src/Platform.antt =====
-- The abstract class `Poller` of include/network/poller.h, as the channels of a reactor use it
-- through src/network/channel.cpp and src/network/reactor.cpp: an interface that src/network/poller.cpp
-- implements twice, for Linux and for Windows.
pub mod Linux
pub mod Windows
pub mod Agree
use order_engine.Prelude.{
  ℕ, Bool, true, false, not, ◌||◌, Option, none, some, List, [], ◌∷◌, ◌≡◌, ap, ◌∙◌, sym,
  if◌then◌else◌, ◌>>=◌, All, Bool-cases, inl, inr,
}
use mathlib.Core.Path.{fun_ext}
use order_engine.Channel.{Change}
use order_engine.Channel.Masks.{reads_after, writes_after}
use order_engine.Poller.{changed}
use order_engine.Poller.Select.{is_set}
use order_engine.Registry.{Call, changes, removes}

-- What the kernel is asked to report of a channel.
pub record Wants : Type 0 where
  pub reads : Bool
  pub writes : Bool

abbrev pub no_wants : Wants
no_wants = record { reads = false; writes = false }

abbrev pub is_idle : Wants → Bool
is_idle w = not (w.reads || w.writes)

abbrev pub after_change : Change → Wants → Wants
after_change m w = record { reads = reads_after m w.reads; writes = writes_after m w.writes }

-- The channels of a reactor by their numbers: `enableReading()` and its kin, `remove()`, and what
-- the next `poll` asks for. All calls come from the loop's thread. `none` is a failed assertion.
pub record Platform : Type 1 where
  pub State : Type 0
  pub change_channel : Change → State → ℕ → Option State
  pub remove : State → ℕ → Option State
  pub wants : State → ℕ → Wants

-- What a reactor relies on, with the channels of the list: a change is what the next `poll` asks
-- for, of this channel only; and `remove` fails its assertion exactly where something is still asked for, and else changes nothing
-- of it.
pub record IsPlatform (P : Platform) (IsValid : P.State → Type 0) (channels : List ℕ) : Type 0 where
  pub change_channel_lem :
      (m : Change) (s : P.State) (i : ℕ)
      → IsValid s
      → is_set i channels ≡ true
      → (s' : P.State) × (P.change_channel m s i ≡ some s')
        × IsValid s'
        × ((j : ℕ) → P.wants s' j ≡ changed i (after_change m (P.wants s i)) (P.wants s) j)
  pub remove_idle :
      (s : P.State) (i : ℕ)
      → IsValid s
      → is_idle (P.wants s i) ≡ true
      → (s' : P.State) × (P.remove s i ≡ some s')
        × IsValid s'
        × ((j : ℕ) → P.wants s' j ≡ P.wants s j)
  pub remove_busy :
      (s : P.State) (i : ℕ) → IsValid s → is_idle (P.wants s i) ≡ false → P.remove s i ≡ none

-- Calls one after the other, on any channels.
unfoldable pub run : (P : Platform) → List (ℕ × Call) → P.State → Option P.State
run P [] s = some s
run P ((i, changes m) ∷ xs) s = do s' ← P.change_channel m s i; run P xs s'
run P ((i, removes) ∷ xs) s = do s' ← P.remove s i; run P xs s'

-- The same calls on nothing but what is wanted of each channel.
unfoldable pub replay : List (ℕ × Call) → (ℕ → Wants) → Option (ℕ → Wants)
replay [] f = some f
replay ((i, changes m) ∷ xs) f = replay xs (changed i (after_change m (f i)) f)
replay ((i, removes) ∷ xs) f = let rest = replay xs f in if is_idle (f i) then rest else none

-- Both fail, or the platform asks for what is wanted.
abbrev pub Agrees : (P : Platform) → Option P.State → Option (ℕ → Wants) → Type 0
Agrees P (some s) (some f) = (j : ℕ) → P.wants s j ≡ f j
Agrees P none none = Unit {0}
Agrees P _ _ = ⊥

module _ (P : Platform) {IsValid : P.State → Type 0} {channels : List ℕ}
    (laws : IsPlatform P IsValid channels) where
  open laws use {change_channel_lem, remove_idle, remove_busy}

  pub run-replay :
      (xs : List (ℕ × Call)) (s : P.State) (f : ℕ → Wants)
      → All (λ x. is_set x.0 channels ≡ true) xs
      → IsValid s
      → P.wants s ≡ f
      → Agrees P (run P xs s) (replay xs f)
  unfolding run replay
  run-replay [] s f known valid e = λ j. ap (λ g. g j) e
  run-replay ((i, changes m) ∷ xs) s f known valid e =
      let (s', done, valid', each) = change_channel_lem m s i valid known.0 in
      rw done (
        run-replay xs s' (changed i (after_change m (f i)) f) known.1 valid'
          (fun_ext each ∙ ap (λ g. changed i (after_change m (g i)) g) e))
  run-replay ((i, removes) ∷ xs) s f known valid e = elim (Bool-cases (is_idle (P.wants s i))) [
    | inl idle ↦
        let (s', done, valid', each) = remove_idle s i valid idle in
        let here : is_idle (f i) ≡ true = ap (λ g. is_idle (g i)) (sym e) ∙ idle in
        rw (done, here) (run-replay xs s' f known.1 valid' (fun_ext each ∙ e))
    | inr busy ↦
        let here : is_idle (f i) ≡ false = ap (λ g. is_idle (g i)) (sym e) ∙ busy in
        rw (remove_busy s i valid busy, here) tt
  ]
