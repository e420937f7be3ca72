-- ===== src/Session/Table.antt =====
-- The table of connections over the rounds of a sub-reactor's loop (src/network/reactor.cpp): the
-- close callback of src/network/tcp_server.cpp removes a connection, and nothing else does.
use order_engine.Prelude.{
  ℕ, suc, ◌≡◌, ◌≢◌, refl, ap, sym, ◌∙◌, inl, inr, Bool-cases, false, ==_iff, Option, some, none,
  List, [], ◌∷◌, ◌++◌, ◌==◌, if◌then◌else◌, arith, Map, All, subst, lookup, lookup-erase, nat_eq,
  Bytes,
}
use order_engine.Channel.{Channel}
use order_engine.Channel.Dispatch.{handle_event-Keeps}
use order_engine.Connection.{
  Connection, Written, wrote, write_failed, Received, received, read_failed, Errno, Handlers,
  handle_read, handle_write, handle_error, close_connection, is_connected, touch,
}
use order_engine.Poller.{Epoll, Poller, changed}
use order_engine.Poller.Poll.{Heap, Wait, poll}
use order_engine.Server.Race.{remove_connection}
use order_engine.Session.{Outcome, callbacks, dispatch}
use order_engine.Session.Round.{Answers, round, rounds, dispatch_at, dispatch_active}

-- A message callback, and the close callback on the table, which maps a descriptor to itself.
abbrev Reply : Type 0
Reply = Connection × Map ℕ ℕ → Bytes → Connection × Map ℕ ℕ

abbrev pub entered : Reply → Handlers (Map ℕ ℕ)
entered f = record {
  message_callback = some f;
  close_callback = some (λ (c, m). (c, remove_connection c m));
}

-- The callback answers, but neither opens nor closes the connection nor touches the table.
abbrev pub Stays : Reply → Type 0
Stays f =
    (s : Connection × Map ℕ ℕ) (b : Bytes)
    → ((f s b).0.state ≡ s.0.state) × ((f s b).0.sockfd ≡ s.0.sockfd) × ((f s b).1 ≡ s.1)

-- The callbacks of a connection are the close callback and such an answer.
abbrev IsQuiet : Handlers (Map ℕ ℕ) → Type 0
IsQuiet h = (f : Reply) × (entered f ≡ h) × Stays f

abbrev entry_for : Connection → Option ℕ
entry_for c = if is_connected c then some c.sockfd else none

module _ (f : Reply) (stays : Stays f) (fd j : ℕ) (ne : fd ≢ j) (o : Option ℕ) where
  -- The connection of `fd` is in the table while it is connected; the entry of `j` is `o`.
  abbrev Kept : Connection × Map ℕ ℕ → Type 0
  Kept (c, m) = (c.sockfd ≡ fd) × (lookup fd m ≡ entry_for c) × (lookup j m ≡ o)

  close_connection-Kept :
      (s : Connection × Map ℕ ℕ) → Kept s → Kept (close_connection (entered f) s)
  unfolding close_connection is_connected remove_connection
  close_connection-Kept (c, m) k =
      ground (arith, k, lookup-erase c.sockfd fd m, lookup-erase c.sockfd j m)

  handle_error-Kept : (s : Connection × Map ℕ ℕ) → Kept s → Kept (handle_error (entered f) s)
  unfolding handle_error
  handle_error-Kept s k = close_connection-Kept s k

  handle_read-Kept :
      (r : Received) (now : ℕ) (s : Connection × Map ℕ ℕ)
      → Kept s
      → Kept (handle_read (entered f) r now s)
  unfolding handle_read is_connected
  handle_read-Kept (received []) now (c, m) k = close_connection-Kept (touch now c, m) k
  handle_read-Kept (received (b ∷ bs)) now (c, m) k =
      let c' = record c { last_active_time = now; input_buffer = c.input_buffer ++ b ∷ bs } in
      ground (arith, k, stays (c', m) c'.input_buffer)
  handle_read-Kept (read_failed e) now (c, m) k =
      ground (arith, k, handle_error-Kept (touch now c, m) k)

  handle_write-Kept :
      (r : Written) (stale : Errno) (now : ℕ) (s : Connection × Map ℕ ℕ)
      → Kept s
      → Kept (handle_write (entered f) r stale now s)
  unfolding handle_write is_connected
  handle_write-Kept (wrote n) stale now (c, m) k =
      ground (arith, k, handle_error-Kept (touch now c, m) k)
  handle_write-Kept (write_failed e) stale now (c, m) k =
      ground (arith, k, handle_error-Kept (touch now c, m) k)

  dispatch-Kept :
      (ch : Channel) (o : Outcome) (s : Connection × Map ℕ ℕ)
      → Kept s
      → Kept (dispatch (entered f) ch o s)
  unfolding dispatch
  dispatch-Kept ch o =
      handle_event-Keeps Kept (callbacks (entered f) o) _ close_connection-Kept
        close_connection-Kept (handle_read-Kept o.read o.now)
        (handle_write-Kept o.written o.stale o.now)

module _ (h : Handlers (Map ℕ ℕ)) (quiet : IsQuiet h) where
  dispatch-entries :
      (fd j : ℕ) (ch : Channel) (o : Outcome) (c : Connection) (m : Map ℕ ℕ)
      → fd ≢ j
      → c.sockfd ≡ fd
      → lookup fd m ≡ entry_for c
      → let (c', m') = dispatch h ch o (c, m) in
        (c'.sockfd ≡ fd) × (lookup fd m' ≡ entry_for c') × (lookup j m' ≡ lookup j m)
  dispatch-entries fd j ch o c m ne socket entry =
      let (f, e, stays) = quiet in
      subst
        (λ x.
          let (c', m') = dispatch x ch o (c, m) in
          (c'.sockfd ≡ fd) × (lookup fd m' ≡ entry_for c') × (lookup j m' ≡ lookup j m))
        e (dispatch-Kept f stays fd j ne (lookup j m) ch o (c, m) (socket, entry, refl))

-- The connections have the descriptors `fd`, and the table has exactly those that are connected,
-- each under its descriptor.
pub record Listed (fd : ℕ → ℕ) (s : (ℕ → Connection) × Map ℕ ℕ) : Type 0 where
  pub sockets : (a : ℕ) → (s.0 a).sockfd ≡ fd a
  pub entries : (a : ℕ) → lookup (fd a) s.1 ≡ entry_for (s.0 a)

module _ (hs : ℕ → Handlers (Map ℕ ℕ)) (quiet : (a : ℕ) → IsQuiet (hs a)) (fd : ℕ → ℕ)
    (distinct : (a b : ℕ) → fd a ≡ fd b → a ≡ b) (io : ℕ → Outcome) where
  dispatched-Listed :
      (h : Heap) (a : ℕ) (cs : ℕ → Connection) (m : Map ℕ ℕ)
      → Listed fd (cs, m)
      → let (c', m') = dispatch_at hs io h a (cs a, m) in Listed fd (changed a c' cs, m')
  dispatched-Listed h a cs m l = record {
    sockets = λ b. elim (Bool-cases (a == b)) [
      | inl e ↦ rw e (mine.0 ∙ ap fd ((==_iff a b).0 e))
      | inr e ↦ rw e (l.sockets b)
    ];
    entries = λ b. elim (Bool-cases (a == b)) [
      | inl e ↦ rw e (sym (ap (λ x. lookup (fd x) after.1) ((==_iff a b).0 e)) ∙ mine.1)
      | inr e ↦ rw e (other b e)
    ];
  }
    where
      after : Connection × Map ℕ ℕ
      after = dispatch_at hs io h a (cs a, m)

      entries_after :
          (j : ℕ)
          → fd a ≢ j
          → (after.0.sockfd ≡ fd a)
            × (lookup (fd a) after.1 ≡ entry_for after.0)
            × (lookup j after.1 ≡ lookup j m)
      entries_after j ne =
          dispatch-entries (hs a) (quiet a) (fd a) j (h a) _ (cs a) m ne (l.sockets a) (l.entries a)

      mine : (after.0.sockfd ≡ fd a) × (lookup (fd a) after.1 ≡ entry_for after.0)
      mine =
          let (socket, entry, rest) = entries_after (suc (fd a)) (λ e. omega (arith, e)) in
          (socket, entry)

      other : (b : ℕ) → (a == b) ≡ false → lookup (fd b) after.1 ≡ entry_for (cs b)
      other b e = (entries_after (fd b) (λ q. ground (arith, e, distinct a b q))).2 ∙ l.entries b

  dispatch_active-Listed :
      (h : Heap) (active : List ℕ) (s : (ℕ → Connection) × Map ℕ ℕ)
      → Listed fd s
      → Listed fd (dispatch_active hs io h active s)
  unfolding dispatch_active
  dispatch_active-Listed h [] s l = l
  dispatch_active-Listed h (a ∷ active) (cs, m) l =
      let (c', m') = dispatch_at hs io h a (cs a, m) in
      dispatch_active-Listed h active (changed a c' cs, m') (dispatched-Listed h a cs m l)

  round-Listed :
      {E : Epoll} (p : Poller E) (k : Wait) (h : Heap) (s : (ℕ → Connection) × Map ℕ ℕ)
      → Listed fd s
      → Listed fd (round hs io p k h s).2
  unfolding round
  round-Listed p k h s l = dispatch_active-Listed (poll p k h []).1 (poll p k h []).2 s l

-- Through any rounds of the loop, whatever `epoll_wait` and the system calls return in them: the
-- table keeps exactly the connections that are connected, each under its descriptor; where the
-- connections have different descriptors, and the message callbacks neither open nor close a
-- connection nor touch the table.
pub rounds-Listed :
    {E : Epoll} (fd : ℕ → ℕ) (xs : List (Answers (Map ℕ ℕ))) (p : Poller E) (h : Heap)
    (s : (ℕ → Connection) × Map ℕ ℕ)
    → All (λ x. (a : ℕ) → IsQuiet (x.callbacks a)) xs
    → ((a b : ℕ) → fd a ≡ fd b → a ≡ b)
    → Listed fd s
    → Listed fd (rounds xs p h s).2
unfolding rounds
rounds-Listed fd [] p h s quiet distinct l = l
rounds-Listed fd (x ∷ xs) p h s quiet distinct l =
    let (p', h', s') = round x.callbacks x.io p x.wait h s in
    rounds-Listed fd xs p' h' s' quiet.1 distinct
      (round-Listed x.callbacks quiet.0 fd distinct x.io p x.wait h s l)
