-- ===== src/Server/Race/Rule.antt =====
-- What is to be shown of a property that every interleaving keeps (src/network/tcp_server.cpp).
use order_engine.Prelude.{
  ℕ, ◌≡◌, subst, true, Bool-cases, inl, inr, Option, none, some, List, [], ◌∷◌, lookup, nat_eq,
  >>=-eq-some, Then, Then-eq-some, Option-cases,
}
use order_engine.Server.Race.{
  Client, Shared, Label, makes, enters, manages, closes, make, enter, manage, close, step, steps,
}

-- The steps that can be made.
pub step_rule :
    (P : Label → Shared → Type 0) (s : Shared)
    → ((fd now : ℕ) → lookup fd s.clients ≡ none → P (makes fd now) (make fd now s))
    → ((fd : ℕ) (k : Client)
        → lookup fd s.clients ≡ some k
        → k.entry_waits ≡ true
        → P (enters fd) (enter fd k s))
    → ((fd now : ℕ) (k : Client)
        → lookup fd s.clients ≡ some k
        → k.task_waits ≡ true
        → P (manages fd now) (manage fd now k s))
    → ((fd : ℕ) (k : Client) → lookup fd s.clients ≡ some k → P (closes fd) (close fd k s))
    → (l : Label) → Then (P l) (step l s)
unfolding step
step_rule P s made entered managed closed (makes fd now) =
    elim (Option-cases (lookup fd s.clients)) [
      | inl new ↦ rw new (made fd now new)
      | inr (k, found) ↦ rw found tt
    ]
step_rule P s made entered managed closed (enters fd) = elim (Option-cases (lookup fd s.clients)) [
  | inl new ↦ rw new tt
  | inr (k, found) ↦ rw found (elim (Bool-cases k.entry_waits) [
    | inl waits ↦ rw waits (entered fd k found waits)
    | inr over ↦ rw over tt
  ])
]
step_rule P s made entered managed closed (manages fd now) =
    elim (Option-cases (lookup fd s.clients)) [
      | inl new ↦ rw new tt
      | inr (k, found) ↦ rw found (elim (Bool-cases k.task_waits) [
        | inl waits ↦ rw waits (managed fd now k found waits)
        | inr over ↦ rw over tt
      ])
    ]
step_rule P s made entered managed closed (closes fd) = elim (Option-cases (lookup fd s.clients)) [
  | inl new ↦ rw new tt
  | inr (k, found) ↦ rw found (closed fd k found)
]

pub steps_rule :
    (P : Shared → Type 0)
    → ((l : Label) (s : Shared) → P s → Then P (step l s))
    → (ls : List Label) (s s' : Shared) → P s
    → steps ls s ≡ some s'
    → P s'
unfolding steps
steps_rule P keeps [] s s' h e = subst (Then P) e h
steps_rule P keeps (l ∷ ls) s s' h e =
    let (t, first, others) = >>=-eq-some (step l s) (λ t. steps ls t) e in
    steps_rule P keeps ls t s' (Then-eq-some P _ (keeps l s h) first) others

pub Then-both :
    (P Q : Shared → Type 0) (o : Option Shared) → Then P o → Then Q o → Then (λ s. P s × Q s) o
Then-both P Q none p q = tt
Then-both P Q (some s) p q = (p, q)
