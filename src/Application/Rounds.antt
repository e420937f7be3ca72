-- ===== src/Application/Rounds.antt =====
-- The echo (src/main.cpp) for all the clients of a sub-reactor, over the rounds of its loop
-- (src/network/reactor.cpp, src/network/poller.cpp).
use mathlib.Core.List.{map}
use order_engine.Prelude.{
  ℕ, zero, suc, Option, Bool-cases, inl, inr, List, [], ◌∷◌, ◌++◌, ◌==◌, ◌≡◌, refl, sym, ◌∙◌, Bytes,
  All, subst, append-nil, append_assoc, arith,
}
use order_engine.Connection.{Connection, wrote}
use order_engine.Poller.{Epoll, Event, Poller}
use order_engine.Poller.Poll.{Heap, ready, named, reported}
use order_engine.Session.Round.{Answers, times, round, rounds, round-each}
use order_engine.Application.Settings.{echo}
use order_engine.Application.Echo.{
  Exchange, IsHealthy, IsEchoing, heard, exchange, exchange-IsEchoing,
}

-- A round: the events that `epoll_wait` gives, and what happens on each connection that they name.
pub record Turn : Type 0 where
  pub events : List Event
  pub exchanges : ℕ → Exchange

-- What happens on the connection whose channel is at `a`, with the mask of its event.
abbrev pub seen : ℕ → Turn → Exchange
seen a t = record (t.exchanges a) {
  outcome = record (t.exchanges a).outcome { revents = reported a 0 t.events };
}

-- Of the connections that are not named, nothing is heard.
abbrev heard_times : ℕ → Exchange → Bytes
heard_times zero x = []
heard_times (suc n) x = heard x

abbrev heard_rounds : ℕ → List Turn → Bytes
heard_rounds a [] = []
heard_rounds a (t ∷ ts) = heard_times (times a (named t.events)) (seen a t) ++ heard_rounds a ts

-- At most one event names the connection, and then neither side closes it, and no system call fails.
abbrev pub Undisturbed : ℕ → Exchange → Type 0
Undisturbed zero x = Unit {0}
Undisturbed (suc zero) x = IsHealthy x
Undisturbed (suc (suc n)) x = ⊥

-- The mask of a channel that is named does not depend on the one that it had.
reported-named :
    (a old before : ℕ) (es : List Event) (n : ℕ)
    → times a (named es) ≡ suc n
    → reported a old es ≡ reported a before es
reported-named a old before [] n e = absurd (cc)
reported-named a old before (x ∷ es) n e = elim (Bool-cases (x.ptr == a)) [
  | inl here ↦ rw here refl
  | inr there ↦ rw there (reported-named a old before es n (rw there at e))
]

module _ {W : Type 0} (close : Option (Connection × W → Connection × W)) where
  abbrev pub answers : Turn → Answers W
  answers t = record {
    wait = ready t.events;
    io = λ a. (t.exchanges a).outcome;
    callbacks = λ a. echo close (wrote (t.exchanges a).reply) (t.exchanges a).outcome.now;
  }

  round-IsEchoing :
      {E : Epoll} (a : ℕ) (t : Turn) (total : Bytes) (p : Poller E) (h : Heap)
      (s : (ℕ → Connection) × W) (n : ℕ)
      → times a (named t.events) ≡ n
      → Undisturbed n (seen a t)
      → IsEchoing total (s.0 a)
      → IsEchoing
          (total ++ heard_times n (seen a t))
          ((round (answers t).callbacks (answers t).io p (ready t.events) h s).2.0 a)
  round-IsEchoing a t total p h s zero e ok echoing =
      let (u, same) =
        round-each (answers t).callbacks (answers t).io p t.events h s a (omega (arith, e)) in
      let stays : (round (answers t).callbacks (answers t).io p (ready t.events) h s).2.0 a
          ≡ s.0 a =
        same ∙ rw e refl in
      subst (IsEchoing (total ++ [])) (sym stays)
        (subst (λ l. IsEchoing l (s.0 a)) (sym (append-nil total)) echoing)
  round-IsEchoing a t total p h s (suc zero) e ok echoing =
      let (u, done) =
        round-each (answers t).callbacks (answers t).io p t.events h s a (omega (arith, e)) in
      let dispatched : (round (answers t).callbacks (answers t).io p (ready t.events) h s).2.0 a
          ≡ (exchange close (h a) (seen a t) (s.0 a, u)).0 =
        done ∙ rw (e, reported-named a (h a).revents 0 t.events zero e) refl in
      subst (IsEchoing (total ++ heard (seen a t))) (sym dispatched)
        (exchange-IsEchoing close (h a) (seen a t) total (s.0 a, u) ok echoing)
  round-IsEchoing a t total p h s (suc (suc n)) e ok echoing = absurd ok

  -- Through any rounds of a sub-reactor's loop, a client hears "Echo: " and the message of each message
  -- that was read from it, in their order, each once and nothing else, as the kernel has it and what
  -- waits for it in the buffer; however the system splits the writes, and whatever happens on the
  -- other connections in the same rounds. The connection stays connected and its input buffer empty.
  -- At most one event of a round names its channel; and neither side closes it, and no system call on
  -- it fails but for now.
  pub rounds-IsEchoing :
      {E : Epoll} (a : ℕ) (ts : List Turn) (total : Bytes) (p : Poller E) (h : Heap)
      (s : (ℕ → Connection) × W)
      → All (λ t. Undisturbed (times a (named t.events)) (seen a t)) ts
      → IsEchoing total (s.0 a)
      → IsEchoing (total ++ heard_rounds a ts) ((rounds (map answers ts) p h s).2.0 a)
  unfolding rounds
  rounds-IsEchoing a [] total p h s ok echoing =
      subst (λ l. IsEchoing l (s.0 a)) (sym (append-nil total)) echoing
  rounds-IsEchoing a (t ∷ ts) total p h s ok echoing =
      let n = times a (named t.events) in
      let (p', h', s') = round (answers t).callbacks (answers t).io p (ready t.events) h s in
      subst (λ l. IsEchoing l ((rounds (map answers ts) p' h' s').2.0 a))
        (append_assoc total (heard_times n (seen a t)) (heard_rounds a ts))
        (rounds-IsEchoing a ts (total ++ heard_times n (seen a t)) p' h' s' ok.1
          (round-IsEchoing a t total p h s n refl ok.0 echoing))
