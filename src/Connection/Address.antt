-- ===== src/Connection/Address.antt =====
-- `TcpConnection::getPeerAddress` (src/network/tcp_connection.cpp).
use order_engine.Prelude.{
  ℕ, ◌+◌, ◌≤◌, ◌<◌, ◌^◌, ◌≡◌, ◌≢◌, refl, ap, sym, ◌∙◌, [], ◌∷◌, ◌++◌, Bytes, All, length, take,
  take-length, pos, some, arith,
}
use order_engine.Text.Decimal.{to_string, stoi}
use order_engine.Text.Decimal.RoundTrip.{stoi-to_string}
use order_engine.Text.Decimal.Size.{length-to_string}

-- `snprintf(buf, 64, "%s:%d", ...)` leaves at most 63 characters. The first argument is what
-- `inet_ntoa` gives, the second the port in the host's order.
unfoldable pub get_peer_address : Bytes → ℕ → Bytes
get_peer_address ip port = take 63 (ip ++ b':' ∷ to_string (pos port))

-- What `inet_ntoa` documents: four numbers below 256 with dots between them.
pub record IsIp (ip : Bytes) : Type 0 where
  pub short : length ip ≤ 15
  pub plain : All (λ c. c ≢ b':') ip

length-append : (xs ys : Bytes) → length (xs ++ ys) ≡ length xs + length ys
length-append [] ys = omega arith
length-append (x ∷ xs) ys = omega (arith, length-append xs ys)

-- The text in front of the first colon, and behind it.
split-colon :
    (xs ys p q : Bytes)
    → All (λ c. c ≢ b':') xs
    → All (λ c. c ≢ b':') ys
    → xs ++ b':' ∷ p ≡ ys ++ b':' ∷ q
    → (xs ≡ ys) × (p ≡ q)
split-colon [] [] p q hx hy e = (refl, cc)
split-colon [] (y ∷ ys) p q hx hy e = absurd (hy.0 (cc))
split-colon (x ∷ xs) [] p q hx hy e = absurd (hx.0 (cc))
split-colon (x ∷ xs) (y ∷ ys) p q hx hy e =
    let (same, rest) = split-colon xs ys p q hx.1 hy.1 (cc) in (cc, rest)

get_peer_address-whole :
    (ip : Bytes) (port : ℕ)
    → IsIp ip
    → port < 2 ^ 16
    → get_peer_address ip port ≡ ip ++ b':' ∷ to_string (pos port)
unfolding get_peer_address
get_peer_address-whole ip port h small = take-length 63 _ (
    omega (
      arith,
      length-append ip (b':' ∷ to_string (pos port)),
      length-to_string 4 port (omega arith),
      h.short,
    ))

-- The buffer of `getPeerAddress` is large enough for every peer, and two peers with the same text
-- have the same address and the same port.
pub get_peer_address-whole_unique :
    (ip ip' : Bytes) (port port' : ℕ)
    → IsIp ip
    → IsIp ip'
    → port < 2 ^ 16
    → port' < 2 ^ 16
    → get_peer_address ip port ≡ get_peer_address ip' port'
    → (get_peer_address ip port ≡ ip ++ b':' ∷ to_string (pos port)) × (ip ≡ ip') × (port ≡ port')
get_peer_address-whole_unique ip ip' port port' h h' small small' e =
    let whole = get_peer_address-whole ip port h small in
    let whole' = get_peer_address-whole ip' port' h' small' in
    let (ips, ports) =
      split-colon ip ip' (to_string (pos port)) (to_string (pos port')) h.plain h'.plain
        (sym whole ∙ e ∙ whole') in
    let numbers : some (pos port) ≡ some (pos port') =
      sym (stoi-to_string (pos port) (omega arith))
      ∙ ap stoi ports
      ∙ stoi-to_string (pos port') (omega arith) in
    (whole, ips, cc)
