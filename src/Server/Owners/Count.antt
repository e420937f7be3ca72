-- ===== src/Server/Owners/Count.antt =====
-- How many shared pointers a connection has.
-- (src/network/tcp_server.cpp, src/network/tcp_connection.cpp)
use order_engine.Prelude.{
  ℕ, suc, ◌+◌, ◌≡◌, refl, ap, ◌∙◌, subst, Bool, false, ◌&&◌, ◌||◌, not, Bool-cases, inl, inr,
  Option, none, some, [], if◌then◌else◌, ◌==◌, ==_iff, lookup, insert, nat_eq, lookup-insert,
}
use order_engine.Registry.Invariant.{changed_self, changed-changed}
use order_engine.Server.Owners.{Owned, set_uses, hold, release}
use order_engine.Server.Race.{Client, Shared, is_disconnected}
use order_engine.Server.Race.Entries.{Holds, entry_of}

set_uses-set_uses : (fd a b : ℕ) (o : Owned) → set_uses fd a (set_uses fd b o) ≡ set_uses fd a o
set_uses-set_uses fd a b o = ap (λ f. record o { uses = f }) (changed-changed fd b a o.uses)

pub hold-eq :
    (fd n : ℕ) (o : Owned) → o.uses fd ≡ suc n → hold fd o ≡ some (set_uses fd (suc (suc n)) o)
unfolding hold
hold-eq fd n o e = rw e refl

pub hold-set_uses :
    (fd n : ℕ) (o : Owned) → hold fd (set_uses fd (suc n) o) ≡ some (set_uses fd (suc (suc n)) o)
hold-set_uses fd n o =
    hold-eq fd n (set_uses fd (suc n) o) (changed_self fd (suc n) o.uses)
    ∙ ap some (set_uses-set_uses fd (suc (suc n)) (suc n) o)

pub release-set_uses :
    (fd n : ℕ) (o : Owned) → release fd (set_uses fd (suc (suc n)) o) ≡ some (set_uses fd (suc n) o)
unfolding release
release-set_uses fd n o =
    rw (changed_self fd (suc (suc n)) o.uses)
      (ap some (set_uses-set_uses fd (suc n) (suc (suc n)) o))

-- How many shared pointers a client has: the task or the channel's callbacks, `handleNewConnection`
-- itself, and the entry.
abbrev pub is_listed : Client → Bool
is_listed k = not (k.entry_waits || (is_disconnected k.connection && not k.closed_first))

abbrev pub owners : Client → ℕ
owners k =
    (if k.task_waits then 1 else 4)
    + (if k.entry_waits then 1 else 0)
    + (if is_listed k then 1 else 0)

abbrev pub owners_of : Option Client → ℕ
owners_of none = 0
owners_of (some k) = owners k

pub record Counted (o : Owned) : Type 0 where
  pub table : Holds o.shared
  pub counted : (fd : ℕ) → o.uses fd ≡ owners_of (lookup fd o.shared.clients)
  pub open_still : o.closed ≡ []

-- A client is replaced, and the count changes at most at its descriptor.
pub Counted-insert :
    (fd : ℕ) (k : Client) (s : Shared) (o o' : Owned)
    → s.clients ≡ insert fd k o.shared.clients
    → Holds s
    → o'.uses fd ≡ owners k
    → ((j : ℕ) → (fd == j) ≡ false → o'.uses j ≡ o.uses j)
    → o'.closed ≡ o.closed
    → Counted o
    → Counted (record o' { shared = s })
Counted-insert fd k s o o' e holds here others same h =
    let look : (j : ℕ)
        → lookup j s.clients ≡ (if fd == j then some k else lookup j o.shared.clients) =
      λ j. ap (λ m. lookup j m) e ∙ lookup-insert fd j k o.shared.clients in
    record {
      table = holds;
      counted = λ j. elim (Bool-cases (fd == j)) [
        | inl at ↦ rw (look j, at) (subst (λ i. o'.uses i ≡ owners k) ((==_iff fd j).0 at) here)
        | inr other ↦ rw (look j, other) (others j other ∙ h.counted j)
      ];
      open_still = same ∙ h.open_still;
    }

pub Counted-set_uses :
    (fd n : ℕ) (k : Client) (s : Shared) (o : Owned)
    → s.clients ≡ insert fd k o.shared.clients
    → Holds s
    → n ≡ owners k
    → Counted o
    → Counted (record (set_uses fd n o) { shared = s })
Counted-set_uses fd n k s o e holds count h =
    Counted-insert fd k s o (set_uses fd n o) e holds (changed_self fd n o.uses ∙ count)
      (λ j other. rw other refl) refl h

-- The count at a client.
pub uses-eq :
    (fd : ℕ) (k : Client) (o : Owned)
    → Counted o
    → lookup fd o.shared.clients ≡ some k
    → o.uses fd ≡ owners k
uses-eq fd k o h found = h.counted fd ∙ ap owners_of found

pub entry-eq :
    (fd : ℕ) (k : Client) (o : Owned)
    → Counted o
    → lookup fd o.shared.clients ≡ some k
    → lookup fd o.shared.entries ≡ entry_of fd (some k)
entry-eq fd k o h found = h.table.table fd ∙ ap (entry_of fd) found
