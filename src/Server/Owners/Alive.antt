-- ===== src/Server/Owners/Alive.antt =====
-- That no connection is used after its destruction, and that none is destroyed.
-- (src/network/tcp_server.cpp, src/network/tcp_connection.cpp, src/network/reactor.cpp)
use order_engine.Prelude.{
  ℕ, suc, ◌-◌, subst, Option, Option-cases, ◌≡◌, refl, ap, ◌∙◌, Bool, true, false, Bool-cases, inl,
  inr, some, List, [], ◌∷◌, lookup, insert, nat_eq, >>=-eq-some, Then, Then-eq-some, lookup-insert,
  ◌==◌, arith,
}
use order_engine.Poller.{changed}
use order_engine.Server.Owners.{
  Owned, Act, races, ends, unowned, marks, schedule, schedules, own_act, step, steps,
}
use order_engine.Server.Race
use order_engine.Server.Race.{
  Client, Shared, Label, makes, enters, manages, closes, make, enter, manage, close, nothing,
  is_disconnected,
}
use order_engine.Server.Race.Entries.{Holds, step-Holds, nothing-Holds}
use order_engine.Server.Race.Rule.{step_rule}
use order_engine.Server.Owners.Count.{owners, owners_of, Counted}
use order_engine.Server.Owners.Accounts.{Accounts, step-Accounts}

abbrev IsMade : Shared → ℕ → Type 0
IsMade s fd = (k : Client) × (lookup fd s.clients ≡ some k)

-- A task that ran is that of a connection.
abbrev IsKnown : Shared → (ℕ → Bool) → Type 0
IsKnown s b = (fd : ℕ) → b fd ≡ true → IsMade s fd

insert-IsMade :
    (fd j : ℕ) (k : Client) (s : Shared)
    → ((fd == j) ≡ false → IsMade s j)
    → IsMade (record s { clients = insert fd k s.clients }) j
insert-IsMade fd j k s old = elim (Bool-cases (fd == j)) [
  | inl here ↦ (k, lookup-insert fd j k s.clients ∙ rw here refl)
  | inr there ↦ let (k', found) = old there in (k', lookup-insert fd j k s.clients ∙ rw there found)
]

step-IsKnown :
    (l : Label) (s : Shared) (b : ℕ → Bool)
    → IsKnown s b
    → Then (λ s'. IsKnown s' (marks l b)) (Race.step l s)
unfolding make enter manage close
step-IsKnown l s b h =
    step_rule (λ m s'. IsKnown s' (marks m b)) s
      (λ fd now new j e. insert-IsMade fd j _ s (λ ne. h j e))
      (λ fd k found waits j e. insert-IsMade fd j _ s (λ ne. h j e))
      (λ fd now k found waits j e. insert-IsMade fd j _ s (λ ne. h j (rw ne at e)))
      (λ fd k found j e. insert-IsMade fd j _ s (λ ne. h j e)) l

-- The counts are right, and the batches known.
record Alive (o : Owned) : Type 0 where
  counts : Counted o
  known : IsKnown o.shared o.in_batch

-- The step can be made with the pointers, and leaves the same.
abbrev CanFollow : (Owned → Option Owned) → Owned → Shared × (ℕ → Bool) → Type 0
CanFollow f o (s, b) =
    (o' : Owned) × (f o ≡ some o') × (o'.shared ≡ s) × (o'.in_batch ≡ b) × Alive o'

raced-Alive :
    (l : Label) (o : Owned) (s : Shared)
    → Alive o
    → Race.step l o.shared ≡ some s
    → CanFollow (step (races l)) o (s, marks l o.in_batch)
unfolding step schedule own_act
raced-Alive l o s h raced =
    let b = marks l o.in_batch in
    let p : Owned = record o { in_batch = b } in
    let c : Counted p = record {
      table = h.counts.table;
      counted = h.counts.counted;
      open_still = h.counts.open_still;
    } in
    let holds = Then-eq-some Holds _ (step-Holds l o.shared h.counts.table) raced in
    let (o', made, counted) =
      Then-eq-some (λ t. Holds t → Accounts p l t) _ (step-Accounts l p c) raced holds in
    (
      record o' { shared = s; in_batch = b },
      rw (raced, made) refl,
      refl,
      refl,
      record {
        counts = record {
          table = counted.table;
          counted = counted.counted;
          open_still = counted.open_still;
        };
        known =
            Then-eq-some (λ t. IsKnown t b) _ (step-IsKnown l o.shared o.in_batch h.known) raced;
      },
    )

-- The connection of a task that ran has other pointers.
ended-Alive :
    (fd : ℕ) (o : Owned)
    → Alive o
    → o.in_batch fd ≡ true
    → CanFollow (step (ends fd)) o (o.shared, changed fd false o.in_batch)
unfolding step schedule own_act
ended-Alive fd o h on =
    let (k, found) = h.known fd on in
    let n = owners k - 1 in
    let count : o.uses fd ≡ suc n = h.counts.counted fd ∙ ap owners_of found ∙ ground arith in
    (
      record o { in_batch = changed fd false o.in_batch },
      rw (on, count) refl,
      refl,
      refl,
      record {
        counts = record {
          table = h.counts.table;
          counted = h.counts.counted;
          open_still = h.counts.open_still;
        };
        known = λ j e. h.known j (elim (Bool-cases (fd == j)) [
          | inl here ↦ absurd (cc (rw here at e))
          | inr there ↦ rw there at e
        ]);
      },
    )

step-Alive :
    (a : Act) (o : Owned)
    → Alive o
    → Then (CanFollow (step a) o) (schedule a (o.shared, o.in_batch))
unfolding schedule
step-Alive (races l) o h = elim (Option-cases (Race.step l o.shared)) [
  | inl stuck ↦ rw stuck tt
  | inr (s, raced) ↦ rw raced (raced-Alive l o s h raced)
]
step-Alive (ends fd) o h = elim (Bool-cases (o.in_batch fd)) [
  | inl on ↦ rw on (ended-Alive fd o h on)
  | inr off ↦ rw off tt
]

steps-Alive :
    (acts : List Act) (o : Owned) (t : Shared × (ℕ → Bool))
    → Alive o
    → schedules acts (o.shared, o.in_batch) ≡ some t
    → CanFollow (steps acts) o t
unfolding steps schedules
steps-Alive [] o t h e = subst (λ x. Then (CanFollow (λ p. some p) o) x) e (o, refl, refl, refl, h)
steps-Alive (a ∷ acts) o t h e =
    let (u, first, others) =
      >>=-eq-some (schedule a (o.shared, o.in_batch)) (λ u. schedules acts u) e in
    let (p, made, same, batches, ok) =
      Then-eq-some (CanFollow (step a) o) _ (step-Alive a o h) first in
    let (q, rest, last, left, alive) =
      steps-Alive acts p t ok (ap (schedules acts) (cc) ∙ others) in
    (q, rw made rest, last, left, alive)

unowned-Alive : Alive unowned
unfolding lookup
unowned-Alive = record {
  counts = record { table = nothing-Holds; counted = λ fd. refl; open_still = refl };
  known = λ fd e. absurd (cc);
}

-- However the threads interleave, until a `stop` clears the table or a reactor is destroyed with
-- tasks that it has not run: no connection is used through a pointer after its destruction. A
-- connection has one shared pointer in its task or, once that ran, four in its channel's callbacks;
-- one in `handleNewConnection` until that returns; one in the table while it is entered; and the one
-- of a task that ran until the `doPendingTasks` that ran it ends. So none is destroyed, and no
-- descriptor of a connection is closed, also of those that are closed and no longer in the table.
pub steps-alive :
    (acts : List Act) (s : Shared) (b : ℕ → Bool)
    → schedules acts (nothing, λ fd. false) ≡ some (s, b)
    → (o : Owned) × (steps acts unowned ≡ some o)
      × (o.shared ≡ s)
      × (o.in_batch ≡ b)
      × (o.closed ≡ [])
      × ((fd : ℕ) → o.uses fd ≡ owners_of (lookup fd s.clients))
steps-alive acts s b e =
    let (o, made, same, batches, ok) = steps-Alive acts unowned (s, b) unowned-Alive e in
    (
      o,
      made,
      same,
      batches,
      ok.counts.open_still,
      λ fd. ok.counts.counted fd ∙ ap (λ t. owners_of (lookup fd t.clients)) same,
    )
