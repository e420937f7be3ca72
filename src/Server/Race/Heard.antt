-- ===== src/Server/Race/Heard.antt =====
-- What the client's connection callback hears (src/network/tcp_server.cpp).
use order_engine.Prelude.{
  ℕ, ◌≡◌, refl, ap, sym, ◌∙◌, subst, Bool, true, false, Bool-cases, inl, inr, Option, none, some,
  List, [], ◌∷◌, ◌++◌, if◌then◌else◌, ◌==◌, ==_iff, lookup, insert, nat_eq, lookup-insert, Then,
  append-nil, arith,
}
use order_engine.Connection
use order_engine.Connection.{
  State, connecting, connected, disconnecting, disconnected, Connection, establish_connection,
  is_connected,
}
use order_engine.Server.Race.Rule.{step_rule, steps_rule, Then-both}
use order_engine.Server.Race.{
  Client, Shared, Label, nothing, make, enter, manage, close, step, steps,
}
use order_engine.Server.Race.Entries.{
  IsClient, Holds, nothing-Holds, step-Holds, connected_state, closed_client, closed_shared,
  close_connected, close_ne,
}

-- The calls for the connection of a descriptor.
abbrev pub heard_of : ℕ → List (ℕ × Bool) → List Bool
heard_of fd [] = []
heard_of fd ((j, b) ∷ hs) = if j == fd then b ∷ heard_of fd hs else heard_of fd hs

-- The calls that a state stands for: it comes once, and goes once.
abbrev calls_in : State → List Bool
calls_in connecting = []
calls_in connected = true ∷ []
calls_in disconnecting = true ∷ []
calls_in disconnected = true ∷ false ∷ []

abbrev pub calls_of : Option Client → List Bool
calls_of none = []
calls_of (some k) = calls_in k.connection.state

heard_of-concat :
    (fd j : ℕ) (b : Bool) (hs : List (ℕ × Bool))
    → heard_of fd (hs ++ (j, b) ∷ []) ≡ heard_of fd hs ++ (if j == fd then b ∷ [] else [])
heard_of-concat fd j b [] = ground arith
heard_of-concat fd j b ((i, c) ∷ hs) = ground (arith, heard_of-concat fd j b hs)

abbrev Calls : Shared → Type 0
Calls s = (fd : ℕ) → heard_of fd s.heard ≡ calls_of (lookup fd s.clients)

-- A client is replaced, with the calls that its change of state makes.
Calls-insert :
    (fd : ℕ) (k : Client) (s s' : Shared) (more : List Bool)
    → s'.clients ≡ insert fd k s.clients
    → ((j : ℕ) → heard_of j s'.heard ≡ heard_of j s.heard ++ (if fd == j then more else []))
    → calls_of (lookup fd s.clients) ++ more ≡ calls_in k.connection.state
    → Calls s
    → Calls s'
Calls-insert fd k s s' more e heard here h =
    let look : (j : ℕ) → lookup j s'.clients ≡ (if fd == j then some k else lookup j s.clients) =
      λ j. ap (λ m. lookup j m) e ∙ lookup-insert fd j k s.clients in
    let at_fd : lookup fd s'.clients ≡ some k = look fd ∙ ground arith in
    let told : heard_of fd s'.heard ≡ heard_of fd s.heard ++ more = heard fd ∙ ground arith in
    λ j. elim (Bool-cases (fd == j)) [
      | inl same ↦
          subst (λ i. heard_of i s'.heard ≡ calls_of (lookup i s'.clients)) ((==_iff fd j).0 same)
            (told ∙ ap (λ l. l ++ more) (h fd) ∙ here ∙ sym (ap calls_of at_fd))
      | inr other ↦ ground (arith, other, look j, heard j, append-nil (heard_of j s.heard), h j)
    ]

-- Nothing is heard.
silent :
    (fd : ℕ) (hs : List (ℕ × Bool)) (j : ℕ)
    → heard_of j hs ≡ heard_of j hs ++ (if fd == j then [] else [])
silent fd hs j = ground (arith, append-nil (heard_of j hs))

make-Calls :
    (fd now : ℕ) (s : Shared) → lookup fd s.clients ≡ none → Calls s → Calls (make fd now s)
unfolding make Connection.create
make-Calls fd now s new h =
    Calls-insert fd _ s (make fd now s) [] refl (silent fd s.heard) (rw new refl) h

enter-Calls :
    (fd : ℕ) (k : Client) (s : Shared)
    → lookup fd s.clients ≡ some k
    → Calls s
    → Calls (enter fd k s)
unfolding enter
enter-Calls fd k s found h =
    Calls-insert fd _ s (enter fd k s) [] refl (silent fd s.heard) (rw found (append-nil _)) h

manage-Calls :
    (fd now : ℕ) (k : Client) (s : Shared)
    → IsClient fd k
    → lookup fd s.clients ≡ some k
    → k.task_waits ≡ true
    → Calls s
    → Calls (manage fd now k s)
unfolding manage establish_connection is_connected
manage-Calls fd now k s ok found waits h =
    Calls-insert fd _ s (manage fd now k s) (true ∷ []) refl
      (λ j.
        heard_of-concat j k.connection.sockfd true s.heard
        ∙ ap (λ n. heard_of j s.heard ++ (if n == j then true ∷ [] else [])) ok.same)
      (rw (found, ok.waiting waits) refl) h

close-Calls :
    (fd : ℕ) (k : Client) (s : Shared)
    → IsClient fd k
    → lookup fd s.clients ≡ some k
    → Calls s
    → Calls (close fd k s)
unfolding is_connected
close-Calls fd k s ok found h = elim (Bool-cases (is_connected k.connection)) [
  | inl on ↦ subst Calls (sym (close_connected fd k s on)) (
      Calls-insert fd (closed_client k) s (closed_shared fd k s) (false ∷ []) refl
        (λ j.
          heard_of-concat j k.connection.sockfd false s.heard
          ∙ ap (λ n. heard_of j s.heard ++ (if n == j then false ∷ [] else [])) ok.same)
        (rw (found, connected_state k.connection.state on) refl) h)
  | inr off ↦ subst Calls (sym (close_ne fd k s off)) (
      Calls-insert fd k s (record s { clients = insert fd k s.clients }) [] refl (silent fd s.heard)
        (rw found (append-nil _)) h)
]

step-Calls : (l : Label) (s : Shared) → Holds s → Calls s → Then Calls (step l s)
step-Calls l s ok h =
    step_rule (λ l. Calls) s (λ fd now new. make-Calls fd now s new h)
      (λ fd k found waits. enter-Calls fd k s found h)
      (λ fd now k found waits. manage-Calls fd now k s (ok.each fd k found) found waits h)
      (λ fd k found. close-Calls fd k s (ok.each fd k found) found h) l

-- Both invariants.
abbrev Both : Shared → Type 0
Both s = Holds s × Calls s

step-Both : (l : Label) (s : Shared) → Both s → Then Both (step l s)
step-Both l s (ok, h) = Then-both Holds Calls (step l s) (step-Holds l s ok) (step-Calls l s ok h)

nothing-Calls : Calls nothing
unfolding lookup
nothing-Calls fd = refl

-- However the threads interleave, the connection callback is called for each connection once when
-- its task has connected it, and sees it connected, and once when it is closed, and sees that it is
-- no longer connected; and never else.
pub steps-heard :
    (ls : List Label) (s : Shared)
    → steps ls nothing ≡ some s
    → (fd : ℕ) → heard_of fd s.heard ≡ calls_of (lookup fd s.clients)
steps-heard ls s e = (steps_rule Both step-Both ls nothing s (nothing-Holds, nothing-Calls) e).1
