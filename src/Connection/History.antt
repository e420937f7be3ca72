-- ===== src/Connection/History.antt =====
-- The stream of a connection over a history of `send` and `handleWrite`.
-- (src/network/tcp_connection.cpp)
use order_engine.Prelude.{
  ℕ, Option, none, some, List, [], ◌∷◌, ◌++◌, ◌≡◌, refl, sym, ap, ◌∙◌, inl, inr, Bytes,
  take-append-drop, append-nil, append_assoc, ltb, ℤ, pos, negsuc, Bool-cases,
}
use order_engine.Connection.{
  Connection, Written, wrote, write_failed, Errno, Handlers, send, handle_write, handle_error,
  close_connection, is_connected, is_empty, is_again, touch, set_state, disconnecting, drain,
  not_written, notify_close, finish_close,
}
use order_engine.Connection.Stream.{stream, Fits, send-Sent}

module _ {W : Type 0} (h : Handlers W) where
  -- The owner's close callback does not touch the bytes of the connection.
  abbrev KeepsStream : Type 0
  KeepsStream =
      (f : Connection × W → Connection × W)
      → h.close_callback ≡ some f
      → (s : Connection × W) → stream (f s).0 ≡ stream s.0

  module _ (keeps : KeepsStream) where
    notify_close-stream :
        (o : Option (Connection × W → Connection × W))
        → h.close_callback ≡ o
        → (s : Connection × W) → stream (finish_close (notify_close o s)).0 ≡ stream s.0
    notify_close-stream none e s = refl
    notify_close-stream (some f) e s = keeps f e s

    close_connection-stream : (s : Connection × W) → stream (close_connection h s).0 ≡ stream s.0
    unfolding close_connection
    close_connection-stream (c, w) = elim (Bool-cases (is_connected c)) [
      | inl on ↦ rw on (notify_close-stream h.close_callback refl (set_state disconnecting c, w))
      | inr off ↦ rw off refl
    ]

    not_written-stream :
        (e : Errno) (s : Connection × W) → stream (not_written h e s).0 ≡ stream s.0
    unfolding handle_error
    not_written-stream e s = elim (Bool-cases (is_again e)) [
      | inl again ↦ rw again refl
      | inr failed ↦ rw failed (close_connection-stream s)
    ]

    drain-stream :
        (r : Written) (stale : Errno) (c : Connection) (w : W)
        → stream (drain h r stale (c, w)).0 ≡ stream c
    drain-stream (wrote n) stale c w = elim (Bool-cases (ltb 0 n)) [
      | inl some_taken ↦
          rw some_taken
            (append_assoc c.wire _ _ ∙ ap (λ b. c.wire ++ b) (take-append-drop n c.output_buffer))
      | inr none_taken ↦ rw none_taken (not_written-stream stale (c, w))
    ]
    drain-stream (write_failed e) stale c w = not_written-stream e (c, w)

    -- `handleWrite` moves bytes from the buffer to the kernel, in order.
    pub handle_write-stream :
        (r : Written) (stale : Errno) (now : ℕ) (c : Connection) (w : W)
        → stream (handle_write h r stale now (c, w)).0 ≡ stream c
    unfolding handle_write
    handle_write-stream r stale now c w = elim (Bool-cases (is_empty c.output_buffer)) [
      | inl empty ↦ rw empty refl
      | inr waits ↦ rw waits (drain-stream r stale (touch now c) w)
    ]

-- A call of one of the two, with what `write` returned in it.
pub data Step : Type 0 where
  sends : (r : Written) (now : ℕ) (bytes : Bytes) → Step
  writes : (r : Written) (stale : Errno) (now : ℕ) → Step

-- The bytes that a caller was told are sent.
abbrev pub accepted : ℤ → Bytes → Bytes
accepted (pos n) bytes = bytes
accepted (negsuc n) bytes = []

-- The state, and all the bytes accepted so far.
unfoldable pub run :
    {W : Type 0} → Handlers W → List Step → Connection × W → Bytes → (Connection × W) × Bytes
run h [] s sent = (s, sent)
run h (sends r now bytes ∷ xs) (c, w) sent =
    let (c', code) = send r now c bytes in run h xs (c', w) (sent ++ accepted code bytes)
run h (writes r stale now ∷ xs) s sent = run h xs (handle_write h r stale now s) sent

abbrev AllFit : List Step → Type 0
AllFit [] = Unit
AllFit (sends r now bytes ∷ xs) = Fits r bytes × AllFit xs
AllFit (writes r stale now ∷ xs) = AllFit xs

-- One `send`: the stream grows by what was accepted.
send-stream :
    (r : Written) (now : ℕ) (c : Connection) (bytes : Bytes)
    → Fits r bytes
    → stream (send r now c bytes).0 ≡ stream c ++ accepted (send r now c bytes).1 bytes
send-stream r now c bytes h = elim (send-Sent r now c bytes h) [
  | inl (code, grown) ↦ rw code grown
  | inr (code, same) ↦ rw code (same ∙ sym (append-nil (stream c)))
]

-- After any calls of `send` and `handleWrite`, with any partial writes and errors in them: what the
-- kernel has, followed by what waits in the buffer, is what it was at the start followed by the
-- data of the calls of `send` that did not answer -1, in their order. The close callback must leave
-- the bytes of the connection alone, and a write takes no more than it is given.
pub run-stream :
    {W : Type 0} (h : Handlers W) (xs : List Step) (c : Connection) (w : W) (start sent : Bytes)
    → KeepsStream h
    → AllFit xs
    → stream c ≡ start ++ sent
    → let (s, sent') = run h xs (c, w) sent in stream s.0 ≡ start ++ sent'
unfolding run
run-stream h [] c w start sent keeps fit e = e
run-stream h (sends r now bytes ∷ xs) c w start sent keeps fit e =
    let sent_now = accepted (send r now c bytes).1 bytes in
    run-stream h xs (send r now c bytes).0 w start (sent ++ sent_now) keeps fit.1
      (send-stream r now c bytes fit.0 ∙ rw e (append_assoc start sent sent_now))
run-stream h (writes r stale now ∷ xs) c w start sent keeps fit e =
    let s = handle_write h r stale now (c, w) in
    run-stream h xs s.0 s.1 start sent keeps fit (handle_write-stream h keeps r stale now c w ∙ e)
