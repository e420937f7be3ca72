-- ===== src/Application/Settings.antt =====
-- From the configuration file to the server, and the echo (src/main.cpp).
use order_engine.Prelude.{
  ℕ, ◌≡◌, refl, inl, inr, Bool, true, false, Option, none, some, List, [], ◌∷◌, ◌++◌, if◌then◌else◌,
  ◌==◌, ℤ, pos, All, Bytes, bytes_eq, codes, lookup, bytes_Eq, length, ◌-◌, ◌≤◌, Bool-cases,
}
use order_engine.Config.{
  Config, Files, empty, load, get_string, get_int, get_value, or_default, parse_ini,
}
use order_engine.Config.Document.{Item, IsItem, render, meaning}
use order_engine.Config.Document.RoundTrip.{lookup-parse_ini}
use order_engine.Connection.{
  Connection, Written, wrote, Handlers, handle_read, received, is_connected, send, touch, is_empty,
  write_directly, keep_rest,
}
use order_engine.Connection.Stream.{stream, send-Sent}
use order_engine.Reactor.{Eventfd}
use order_engine.Server
use order_engine.Server.{TcpServer, Setup, start}
use order_engine.Text.Decimal.{stoi}
use order_engine.Application.{Application, initialize, to_port, handle_message}

-- What an entry says, or the default where there is none or an empty one.
abbrev pub text_of : Option Bytes → Bytes → Bytes
text_of none default = default
text_of (some []) default = default
text_of (some (b ∷ bs)) default = b ∷ bs

abbrev pub number_of : Option Bytes → ℤ → ℤ
number_of none default = default
number_of (some []) default = default
number_of (some (b ∷ bs)) default = or_default (stoi (b ∷ bs)) default

get_string-text_of :
    (c : Config) (k default : Bytes) (o : Option Bytes)
    → lookup k c.configs ≡ o
    → get_string c k default ≡ text_of o default
unfolding get_string get_value bytes_eq
get_string-text_of c k default none e = rw e refl
get_string-text_of c k default (some []) e = rw e refl
get_string-text_of c k default (some (b ∷ bs)) e = rw e refl

get_int-number_of :
    (c : Config) (k : Bytes) (default : ℤ) (o : Option Bytes)
    → lookup k c.configs ≡ o
    → get_int c k default ≡ number_of o default
unfolding get_int get_value bytes_eq
get_int-number_of c k default none e = rw e refl
get_int-number_of c k default (some []) e = rw e refl
get_int-number_of c k default (some (b ∷ bs)) e = rw e refl

module _ {F : Eventfd} where
  -- Where the logger starts and the file is a document of well-formed items, the initialization
  -- succeeds and the server is the one of the address, the port modulo 2^16 and the number of
  -- threads that the document means, with the defaults for those that it does not give.
  pub initialize-document :
      (files : Files) (hardware : ℕ) (file : Bytes) (app : Application F) (doc : List Item)
      → files file ≡ some (render doc)
      → All IsItem doc
      → ((initialize true files hardware file app).0 ≡ true)
        × ((initialize true files hardware file app).1.tcp_server
            ≡ some (
                Server.create
                  (text_of (meaning (codes "server.ip") [] doc) (codes "0.0.0.0"))
                  (to_port (number_of (meaning (codes "server.port") [] doc) (pos 8080)))
                  (number_of (meaning (codes "server.thread_num") [] doc) (pos 4))
                  hardware))
  unfolding initialize load
  initialize-document files hardware file app doc found ok =
      let c : Config = parse_ini (record empty { config_file = file }) (render doc) in
      let says : (k : Bytes) → lookup k c.configs ≡ meaning k [] doc =
        λ k. lookup-parse_ini (record empty { config_file = file }) doc k ok in
      rw found (
        refl,
        rw
            (
              get_string-text_of c (codes "server.ip") (codes "0.0.0.0") _
                  (says (codes "server.ip")),
              get_int-number_of c (codes "server.port") (pos 8080) _ (says (codes "server.port")),
              get_int-number_of c (codes "server.thread_num") (pos 4) _
                  (says (codes "server.thread_num")),
            )
            refl,
      )

answered :
    (n now : ℕ) (c : Connection) (bytes : Bytes)
    → is_connected c ≡ true
    → (m : ℕ) × ((send (wrote n) now c bytes).1 ≡ pos m)
unfolding send write_directly keep_rest
answered n now c bytes on = rw on (waits (is_empty c.output_buffer))
  where
    waits :
        (b : Bool)
        → (m : ℕ) × ((if b
              then write_directly (touch now c) bytes (wrote n)
              else keep_rest (touch now c) bytes 0 (length bytes) false).1
            ≡ pos m)
    waits false = (length bytes, refl)
    waits true = elim (Bool-cases (length bytes - n == 0)) [
      | inl done ↦ (n, rw done refl)
      | inr more ↦ (length bytes, rw more refl)
    ]

-- The callbacks of a connection of the application, for one message.
abbrev pub echo : {W : Type 0} → Option (Connection × W → Connection × W) → Written → ℕ → Handlers W
echo close w now = record { message_callback = some (handle_message w now); close_callback = close }

-- A message that arrives on a connected connection with an empty input buffer is answered: "Echo: "
-- and the message are passed on, to the kernel or into the buffer, behind what was there, and the
-- input buffer is empty again; where `write`, if it is called, takes no more than it is given and
-- does not fail.
pub handle_read-echo :
    {W : Type 0} (close : Option (Connection × W → Connection × W)) (n now : ℕ) (c : Connection)
    (u : W) (b : ℕ) (bs : Bytes)
    → is_connected c ≡ true
    → c.input_buffer ≡ []
    → n ≤ length (codes "Echo: " ++ b ∷ bs)
    → let (c', u') = handle_read (echo close (wrote n) now) (received (b ∷ bs)) now (c, u) in
      (stream c' ≡ stream c ++ (codes "Echo: " ++ b ∷ bs)) × (c'.input_buffer ≡ [])
unfolding handle_read handle_message
handle_read-echo close n now c u b bs on empty_input fits =
    let arrived = record c { last_active_time = now; input_buffer = b ∷ bs } in
    let message = codes "Echo: " ++ b ∷ bs in
    let (m, answer) = answered n now arrived message (unfold is_connected in on) in
    rw empty_input (elim (send-Sent (wrote n) now arrived message fits) [
      | inl (all, passed) ↦ (passed, refl)
      | inr (refused, same) ↦ absurd (cc)
    ])
