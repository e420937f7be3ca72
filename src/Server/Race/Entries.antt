-- ===== src/Server/Race/Entries.antt =====
-- Which connections the table has (src/network/tcp_server.cpp).
use order_engine.Prelude.{
  erase, ◌++◌, ℕ, ◌≡◌, refl, ap, sym, ◌∙◌, subst, true, false, ◌||◌, ◌&&◌, not, Bool-cases, inl,
  inr, Option, none, some, List, [], ◌∷◌, if◌then◌else◌, ◌==◌, ==_iff, lookup, insert, nat_eq,
  lookup-insert, lookup-erase, Then, arith,
}
use order_engine.Connection
use order_engine.Connection.{
  State, connecting, connected, disconnected, Connection, establish_connection, close_connection,
  is_connected, is_connected_state,
}
use order_engine.Server.Race.Rule.{step_rule, steps_rule}
use order_engine.Server.Race.{
  is_disconnected_state, is_disconnected, Client, Shared, Label, nothing, make, enter, manage,
  remove_connection, close, step, steps,
}

-- The entry that the table should have.
abbrev pub entry_of : ℕ → Option Client → Option ℕ
entry_of fd none = none
entry_of fd (some k) =
    if k.entry_waits || (is_disconnected k.connection && not k.closed_first) then none else some fd

disconnected_state : (x : State) → is_disconnected_state x ≡ true → x ≡ disconnected
disconnected_state disconnected h = refl
disconnected_state _ h = absurd (cc)

pub connected_state : (x : State) → is_connected_state x ≡ true → x ≡ connected
connected_state connected h = refl
connected_state _ h = absurd (cc)

pub record IsClient (fd : ℕ) (k : Client) : Type 0 where
  pub same : k.connection.sockfd ≡ fd
  pub waiting : k.task_waits ≡ true → k.connection.state ≡ connecting
  pub gone : k.closed_first ≡ true → k.connection.state ≡ disconnected

pub record Holds (s : Shared) : Type 0 where
  pub each : (fd : ℕ) (k : Client) → lookup fd s.clients ≡ some k → IsClient fd k
  pub table : (fd : ℕ) → lookup fd s.entries ≡ entry_of fd (lookup fd s.clients)

-- A client is replaced, and the table changes at most at its descriptor.
Holds-insert :
    (fd : ℕ) (k : Client) (s s' : Shared)
    → s'.clients ≡ insert fd k s.clients
    → IsClient fd k
    → lookup fd s'.entries ≡ entry_of fd (some k)
    → ((j : ℕ) → (fd == j) ≡ false → lookup j s'.entries ≡ lookup j s.entries)
    → Holds s
    → Holds s'
Holds-insert fd k s s' e ok here others h =
    let look : (j : ℕ) → lookup j s'.clients ≡ (if fd == j then some k else lookup j s.clients) =
      λ j. ap (λ m. lookup j m) e ∙ lookup-insert fd j k s.clients in
    let at_fd : lookup fd s'.clients ≡ some k = look fd ∙ ground arith in
    record {
      each = λ j d found. elim (Bool-cases (fd == j)) [
        | inl same ↦
            let p = (==_iff fd j).0 same in
            subst (λ i. IsClient i d) p
              (subst (Then (IsClient fd)) (sym at_fd ∙ ap (λ i. lookup i s'.clients) p ∙ found) ok)
        | inr other ↦ h.each j d (ground (arith, other, look j, found))
      ];
      table = λ j. elim (Bool-cases (fd == j)) [
        | inl same ↦
            subst (λ i. lookup i s'.entries ≡ entry_of i (lookup i s'.clients))
              ((==_iff fd j).0 same) (here ∙ sym (ap (entry_of fd) at_fd))
        | inr other ↦ ground (arith, other, look j, others j other, h.table j)
      ];
    }

make-Holds :
    (fd now : ℕ) (s : Shared) → lookup fd s.clients ≡ none → Holds s → Holds (make fd now s)
unfolding make Connection.create
make-Holds fd now s new h =
    Holds-insert fd _ s (make fd now s) refl
      (record { same = refl; waiting = λ w. refl; gone = λ g. absurd (cc) })
      (h.table fd ∙ ap (entry_of fd) new) (λ j other. refl) h

enter-Holds : (fd : ℕ) (k : Client) (s : Shared) → IsClient fd k → Holds s → Holds (enter fd k s)
unfolding enter
enter-Holds fd k s ok h =
    Holds-insert fd _ s (enter fd k s) refl
      (record {
        same = ok.same;
        waiting = ok.waiting;
        gone = λ g. disconnected_state k.connection.state g;
      })
      (lookup-insert fd fd fd s.entries ∙ ground arith)
      (λ j other. lookup-insert fd j fd s.entries ∙ rw other refl) h

manage-Holds :
    (fd now : ℕ) (k : Client) (s : Shared)
    → lookup fd s.clients ≡ some k
    → k.task_waits ≡ true
    → Holds s
    → Holds (manage fd now k s)
unfolding manage establish_connection
manage-Holds fd now k s found waits h =
    let ok = h.each fd k found in
    Holds-insert fd _ s (manage fd now k s) refl
      (record {
        same = ok.same;
        waiting = λ w. absurd (cc);
        gone = λ g. absurd (cc (ok.waiting waits, ok.gone g));
      })
      (h.table fd ∙ ap (entry_of fd) found ∙ ground (arith, ok.waiting waits)) (λ j other. refl) h

closed-IsClient :
    (fd : ℕ) (k : Client)
    → IsClient fd k
    → k.connection.state ≡ connected
    → IsClient fd (record k { connection = record k.connection { state = disconnected } })
closed-IsClient fd k ok live = record {
  same = ok.same;
  waiting = λ w. absurd (cc (live, ok.waiting w));
  gone = λ g. refl;
}

pub alive-closed_first :
    (fd : ℕ) (k : Client) → IsClient fd k → k.connection.state ≡ connected → k.closed_first ≡ false
alive-closed_first fd k ok live = elim (Bool-cases k.closed_first) [
  | inl first ↦ absurd (cc (live, ok.gone first))
  | inr later ↦ later
]

-- The client once it is closed, and the server then.
abbrev pub closed_client : Client → Client
closed_client k = record k { connection = record k.connection { state = disconnected } }

abbrev pub closed_shared : ℕ → Client → Shared → Shared
closed_shared fd k s = record {
  clients = insert fd (closed_client k) s.clients;
  entries = erase k.connection.sockfd s.entries;
  heard = s.heard ++ (k.connection.sockfd, false) ∷ [];
}

pub close_connected :
    (fd : ℕ) (k : Client) (s : Shared)
    → is_connected k.connection ≡ true
    → close fd k s ≡ closed_shared fd k s
unfolding close close_connection is_connected remove_connection
close_connected fd k s on = rw on

pub close_ne :
    (fd : ℕ) (k : Client) (s : Shared)
    → is_connected k.connection ≡ false
    → close fd k s ≡ record s { clients = insert fd k s.clients }
unfolding close close_connection is_connected
close_ne fd k s off = rw off

close-Holds :
    (fd : ℕ) (k : Client) (s : Shared)
    → lookup fd s.clients ≡ some k
    → Holds s
    → Holds (close fd k s)
unfolding is_connected
close-Holds fd k s found h =
    let ok = h.each fd k found in
    elim (Bool-cases (is_connected k.connection)) [
      | inl on ↦
          let live = connected_state k.connection.state on in
          let not_first = alive-closed_first fd k ok live in
          subst Holds (sym (close_connected fd k s on)) (
            Holds-insert fd (closed_client k) s (closed_shared fd k s) refl
              (closed-IsClient fd k ok live)
              (lookup-erase k.connection.sockfd fd s.entries ∙ ground (arith, ok.same, not_first))
              (λ j other.
                lookup-erase k.connection.sockfd j s.entries ∙ ground (arith, ok.same, other))
              h)
      | inr off ↦ subst Holds (sym (close_ne fd k s off)) (
          Holds-insert fd k s (record s { clients = insert fd k s.clients }) refl ok
            (h.table fd ∙ ap (entry_of fd) found) (λ j other. refl) h)
    ]

pub step-Holds : (l : Label) (s : Shared) → Holds s → Then Holds (step l s)
step-Holds l s h =
    step_rule (λ l. Holds) s (λ fd now new. make-Holds fd now s new h)
      (λ fd k found waits. enter-Holds fd k s (h.each fd k found) h)
      (λ fd now k found waits. manage-Holds fd now k s found waits h)
      (λ fd k found. close-Holds fd k s found h) l

pub nothing-Holds : Holds nothing
unfolding lookup
nothing-Holds = record { each = λ fd k e. absurd (cc); table = λ fd. refl }

-- However the making, the entries, the tasks and the closing of connections interleave: the table
-- has a connection under its descriptor exactly if its entry was made and the connection is not
-- closed, or was closed before its entry was made, when the entry stays.
pub steps-entries :
    (ls : List Label) (s : Shared)
    → steps ls nothing ≡ some s
    → (fd : ℕ) → lookup fd s.entries ≡ entry_of fd (lookup fd s.clients)
steps-entries ls s e = (steps_rule Holds step-Holds ls nothing s nothing-Holds e).table
