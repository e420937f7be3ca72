-- ===== src/Server/Owners/Accounts.antt =====
-- What each step of Race does to the shared pointers of its connection
-- (src/network/tcp_server.cpp, src/network/tcp_connection.cpp).
use order_engine.Prelude.{
  ℕ, suc, ◌+◌, ◌-◌, ◌≡◌, refl, ap, sym, ◌∙◌, subst, true, false, Bool-cases, inl, inr, none, some,
  if◌then◌else◌, lookup, insert, nat_eq, Then, arith,
}
use order_engine.Connection.{connected, is_connected, establish_connection}
use order_engine.Server.Owners.{Owned, set_uses, use_of, own_close, own}
use order_engine.Server.Race
use order_engine.Server.Race.{
  Client, Shared, Label, makes, enters, manages, closes, make, enter, manage, close, nothing,
  is_disconnected,
}
use order_engine.Server.Race.Entries.{
  IsClient, alive-closed_first, Holds, entry_of, connected_state, close_connected, close_ne,
  closed_client, closed_shared,
}
use order_engine.Server.Race.Rule.{step_rule}
use order_engine.Server.Owners.Count.{
  hold-eq, hold-set_uses, release-set_uses, is_listed, owners, Counted, Counted-insert,
  Counted-set_uses, uses-eq, entry-eq,
}

-- The pointers of a step can be counted, and are then those of the client that it leaves.
abbrev pub Accounts : Owned → Label → Shared → Type 0
Accounts o l s = (o' : Owned) × (own l o ≡ some o') × Counted (record o' { shared = s })

made_lem :
    (fd now : ℕ) (o : Owned)
    → Counted o
    → Holds (make fd now o.shared)
    → Accounts o (makes fd now) (make fd now o.shared)
unfolding own make
made_lem fd now o h holds = (
  set_uses fd 2 o,
  hold-set_uses fd 0 o,
  Counted-set_uses fd 2 _ (make fd now o.shared) o refl holds refl h,
)

abbrev of_task : Client → ℕ
of_task k = if k.task_waits then 1 else 4

entered_lem :
    (fd : ℕ) (k : Client) (o : Owned)
    → lookup fd o.shared.clients ≡ some k
    → k.entry_waits ≡ true
    → Counted o
    → Holds (enter fd k o.shared)
    → Accounts o (enters fd) (enter fd k o.shared)
unfolding own enter
entered_lem fd k o found waits h holds =
    let n = of_task k in
    let count : o.uses fd ≡ suc n = uses-eq fd k o h found ∙ ground arith in
    let no_entry : lookup fd o.shared.entries ≡ none = entry-eq fd k o h found ∙ rw waits refl in
    (
      set_uses fd (suc n) o,
      rw (hold-eq fd n o count, no_entry) (release-set_uses fd n o),
      Counted-set_uses fd (suc n) _ (enter fd k o.shared) o refl holds (ground arith) h,
    )

managed_lem :
    (fd now : ℕ) (k : Client) (o : Owned)
    → lookup fd o.shared.clients ≡ some k
    → k.task_waits ≡ true
    → Counted o
    → Holds (manage fd now k o.shared)
    → Accounts o (manages fd now) (manage fd now k o.shared)
unfolding own manage establish_connection
managed_lem fd now k o found waits h holds =
    let n = (if k.entry_waits then 1 else 0) + (if is_listed k then 1 else 0) in
    let count : o.uses fd ≡ suc n = uses-eq fd k o h found ∙ ground arith in
    let new = (h.table.each fd k found).waiting waits in
    (
      set_uses fd (suc (suc (suc (suc n)))) o,
      rw
          (
            hold-eq fd n o count,
            hold-set_uses fd (suc n) o,
            hold-set_uses fd (suc (suc n)) o,
            hold-set_uses fd (suc (suc (suc n))) o,
          )
          (release-set_uses fd (suc (suc (suc n))) o),
      Counted-set_uses fd (suc (suc (suc (suc n)))) _ (manage fd now k o.shared) o refl holds
          (ground (arith, new)) h,
    )

-- A connection that is connected has run its task.
connected-task_waits :
    (fd : ℕ) (k : Client) → IsClient fd k → k.connection.state ≡ connected → k.task_waits ≡ false
connected-task_waits fd k ok live = elim (Bool-cases k.task_waits) [
  | inl waits ↦ absurd (cc (live, ok.waiting waits))
  | inr over ↦ over
]

closed_lem :
    (fd : ℕ) (k : Client) (o : Owned)
    → lookup fd o.shared.clients ≡ some k
    → is_connected k.connection ≡ true
    → Counted o
    → Holds (closed_shared fd k o.shared)
    → Accounts o (closes fd) (closed_shared fd k o.shared)
unfolding own own_close use_of is_connected
closed_lem fd k o found on h holds =
    let ok = h.table.each fd k found in
    let live = connected_state k.connection.state on in
    let task = connected-task_waits fd k ok live in
    let first = alive-closed_first fd k ok live in
    let count : o.uses fd ≡ suc 4 = uses-eq fd k o h found ∙ ground (arith, task, live) in
    let entry : lookup k.connection.sockfd o.shared.entries ≡ entry_of fd (some k) =
      ap (λ i. lookup i o.shared.entries) ok.same ∙ entry-eq fd k o h found in
    elim (Bool-cases k.entry_waits) [
      | inl waits ↦ (
        set_uses fd (suc 4) o,
        rw (count, found, on, hold-eq fd 4 o count, entry, waits) (release-set_uses fd 4 o),
        Counted-set_uses fd (suc 4) (closed_client k) (closed_shared fd k o.shared) o refl holds
            (ground (arith, task, waits)) h,
      )
      | inr entered ↦ (
        set_uses fd (suc 3) o,
        rw (count, found, on, hold-eq fd 4 o count, entry, entered, live, release-set_uses fd 4 o)
            (release-set_uses fd 3 o),
        Counted-set_uses fd (suc 3) (closed_client k) (closed_shared fd k o.shared) o refl holds
            (ground (arith, task, entered, first)) h,
      )
    ]

idle_lem :
    (fd : ℕ) (k : Client) (o : Owned)
    → lookup fd o.shared.clients ≡ some k
    → is_connected k.connection ≡ false
    → Counted o
    → Holds (record o.shared { clients = insert fd k o.shared.clients })
    → Accounts o (closes fd) (record o.shared { clients = insert fd k o.shared.clients })
unfolding own use_of
idle_lem fd k o found off h holds =
    let n = owners k - 1 in
    let count : o.uses fd ≡ suc n = uses-eq fd k o h found ∙ ground arith in
    (
      o,
      rw (count, found, off) refl,
      Counted-insert fd k _ o o refl holds (uses-eq fd k o h found) (λ j other. refl) refl h,
    )

close_lem :
    (fd : ℕ) (k : Client) (o : Owned)
    → lookup fd o.shared.clients ≡ some k
    → Counted o
    → Holds (close fd k o.shared)
    → Accounts o (closes fd) (close fd k o.shared)
close_lem fd k o found h holds = elim (Bool-cases (is_connected k.connection)) [
  | inl on ↦
      let e = close_connected fd k o.shared on in
      subst (Accounts o (closes fd)) (sym e) (closed_lem fd k o found on h (subst Holds e holds))
  | inr off ↦
      let e = close_ne fd k o.shared off in
      subst (Accounts o (closes fd)) (sym e) (idle_lem fd k o found off h (subst Holds e holds))
]

pub step-Accounts :
    (l : Label) (o : Owned)
    → Counted o
    → Then (λ s. Holds s → Accounts o l s) (Race.step l o.shared)
step-Accounts l o h =
    step_rule (λ m s. Holds s → Accounts o m s) o.shared (λ fd now new. made_lem fd now o h)
      (λ fd k found waits. entered_lem fd k o found waits h)
      (λ fd now k found waits. managed_lem fd now k o found waits h)
      (λ fd k found. close_lem fd k o found h) l
