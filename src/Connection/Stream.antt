-- ===== src/Connection/Stream.antt =====
-- The bytes that a connection sends. (src/network/tcp_connection.cpp)
use order_engine.Prelude.{
  ℕ, ◌-◌, ◌≤◌, Bool, true, false, [], ◌∷◌, ◌++◌, ◌≡◌, refl, sym, ap, ◌∙◌, ◌⊎◌, inl, inr, Bytes,
  arith, length, take, drop, take-append-drop, take-length, length-drop, nil_of_length, append-nil,
  append_assoc, if◌then◌else◌, ltb, ◌==◌, ℤ, pos, negsuc, Bool-cases,
}
use order_engine.Connection.{
  Connection, Written, wrote, write_failed, send, write_directly, keep_rest, touch, is_connected,
  is_empty, is_fault,
}

-- What the peer is to get: the bytes that the kernel has, and those that wait.
abbrev pub stream : Connection → Bytes
stream c = c.wire ++ c.output_buffer

-- `write` takes no more than it is given.
abbrev pub Fits : Written → Bytes → Type 0
Fits (wrote n) bytes = n ≤ length bytes
Fits (write_failed e) bytes = Unit

-- What the caller is told, and what became of the bytes.
abbrev pub Sent : Connection → Bytes → Connection × ℤ → Type 0
Sent c bytes (c', r) =
    ((r ≡ pos (length bytes)) × (stream c' ≡ stream c ++ bytes))
    ⊎ ((r ≡ negsuc 0) × (stream c' ≡ stream c))

-- Where the rest is kept, all bytes from `n` on are.
keep_rest-stream :
    (c : Connection) (bytes : Bytes) (n : ℕ)
    → stream (keep_rest c bytes n (length bytes - n) false).0 ≡ stream c ++ drop n bytes
unfolding keep_rest
keep_rest-stream c bytes n = elim (Bool-cases (ltb 0 (length bytes - n))) [
  | inl more ↦
      rw (more, take-length (length bytes - n) (drop n bytes) (omega (arith, length-drop n bytes)))
        (sym (append_assoc c.wire c.output_buffer (drop n bytes)))
  | inr done ↦
      rw (done, nil_of_length (drop n bytes) (ground (arith, length-drop n bytes)))
        (sym (append-nil (stream c)))
]

keep_rest-Sent :
    (c : Connection) (bytes : Bytes) (fault : Bool)
    → Sent c bytes (keep_rest c bytes 0 (length bytes) fault)
keep_rest-Sent c bytes true = unfold keep_rest in inr (refl, refl)
keep_rest-Sent c bytes false = inl (
  unfold keep_rest in refl,
  ap (λ r. stream (keep_rest c bytes 0 r false).0) (omega arith) ∙ keep_rest-stream c bytes 0,
)

-- The kernel has taken the first bytes, and nothing waited before them.
taken-stream :
    (wire out bytes : Bytes) (n : ℕ)
    → out ≡ []
    → ((wire ++ take n bytes) ++ out) ++ drop n bytes ≡ (wire ++ out) ++ bytes
taken-stream wire out bytes n e = rw e (simp (append-nil, append_assoc, take-append-drop n bytes))

write_directly-Sent :
    (c : Connection) (bytes : Bytes) (w : Written)
    → c.output_buffer ≡ []
    → Fits w bytes
    → Sent c bytes (write_directly c bytes w)
unfolding write_directly
write_directly-Sent c bytes (wrote n) e h = elim (Bool-cases (length bytes - n == 0)) [
  | inl done ↦
      let all : drop n bytes ≡ [] =
        nil_of_length (drop n bytes) (ground (arith, length-drop n bytes)) in
      rw done (
        inl (
          ap pos (ground arith),
          sym (append-nil _) ∙ rw all at (taken-stream c.wire c.output_buffer bytes n e),
        ))
  | inr more ↦ rw more (
      inl (
        unfold keep_rest in refl,
        keep_rest-stream (record c { wire = c.wire ++ take n bytes }) bytes n
            ∙ taken-stream c.wire c.output_buffer bytes n e,
      ))
]
write_directly-Sent c bytes (write_failed x) e h = keep_rest-Sent c bytes (is_fault x)

-- `send` answers the length of the data and has passed all of it on, to the kernel or into the
-- buffer, behind what was there; or it answers -1 and has passed on nothing. No byte is lost,
-- doubled or reordered by a partial write; if `write` took no more than it was given.
pub send-Sent :
    (w : Written) (now : ℕ) (c : Connection) (bytes : Bytes)
    → Fits w bytes
    → Sent c bytes (send w now c bytes)
unfolding send
send-Sent w now c bytes h = elim (Bool-cases (is_connected c)) [
  | inr off ↦ rw off (inr (refl, refl))
  | inl on ↦ rw on (buffered c.output_buffer refl)
]
  where
    buffered :
        (out : Bytes)
        → c.output_buffer ≡ out
        → Sent c bytes (
            if is_empty c.output_buffer
            then write_directly (touch now c) bytes w
            else keep_rest (touch now c) bytes 0 (length bytes) false)
    buffered [] e = rw (ap is_empty e) (write_directly-Sent (touch now c) bytes w e h)
    buffered (b ∷ out) e = rw (ap is_empty e) (keep_rest-Sent (touch now c) bytes false)
