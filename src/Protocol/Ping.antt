-- ===== src/Protocol/Ping.antt =====
-- classes Ping and Pong of network/include/protocol and network/src/protocol (ping and pong).
use btcdemo.Prelude.{
  ℕ, ◌^◌, ◌≤◌, ◌<◌, ◌≡◌, ◌≢◌, refl, Bool, true, false, not, List, [], ◌++◌, Option, none, some,
  length, ltb, leb, le→leb, lt→ltb, ltb-false, ◌==◌, if◌then◌else◌, arith, dec_le,
}
use btcdemo.Stream.{Input, Result, ok, ◌>>=◌}
use btcdemo.Stream.Window.{Left}
use btcdemo.Endian.RoundTrip.{length-to_little_endian}
use btcdemo.Serialize.{ser_write_data, ser_read_data}
use btcdemo.Protocol.{bip31_version, protocol_version}
use btcdemo.Serialize.Objects.{Reads, read_word}

pub record Ping : Type 0 where
  pub nonce : ℕ
  pub protocol_version : ℕ

unfoldable pub of_nonce : ℕ → Ping
of_nonce nonce = record { nonce = nonce; protocol_version = protocol_version }

unfoldable pub clear : Ping → Ping
clear m = record m { nonce = 0 }

unfoldable pub set_protocol_version : ℕ → Ping → Ping
set_protocol_version version m = record m { protocol_version = version }

unfoldable pub is_valid : Ping → Bool
is_valid m = if ltb m.protocol_version bip31_version then true else not (m.nonce == 0)

unfoldable pub serialized_size : Ping → ℕ
serialized_size m = if ltb m.protocol_version bip31_version then 0 else 8

-- `operator==` looks at the nonce alone.
unfoldable pub ping_eq : Ping → Ping → Bool
ping_eq a b = a.nonce == b.nonce

unfoldable pub serialize : Ping → List ℕ
serialize m = if leb bip31_version m.protocol_version then ser_write_data 8 m.nonce else []

-- The object that is read into knows the version.
unfoldable pub deserialize : ℕ → Ping → Input → Result (Ping × Input)
deserialize stale into s =
    let read = (do (nonce, s1) ← ser_read_data stale 8 s; ok (record into { nonce = nonce }, s1)) in
    if leb bip31_version into.protocol_version then read else ok (into, s)

pub record Pong : Type 0 where
  pub pong_nonce : ℕ

unfoldable pub pong_clear : Pong → Pong
pong_clear m = record { pong_nonce = 0 }

unfoldable pub pong_is_valid : Pong → Bool
pong_is_valid m = not (m.pong_nonce == 0)

abbrev pub pong_serialized_size : ℕ
pong_serialized_size = 8

unfoldable pub pong_eq : Pong → Pong → Bool
pong_eq a b = a.pong_nonce == b.pong_nonce

unfoldable pub pong_serialize : Pong → List ℕ
pong_serialize m = ser_write_data 8 m.pong_nonce

unfoldable pub pong_deserialize : ℕ → Input → Result (Pong × Input)
pong_deserialize stale s = do
  (nonce, s1) ← ser_read_data stale 8 s
  ok (record { pong_nonce = nonce }, s1)

-- Ping::RecvHandler: the answer, if the version of the node that asks has one.
unfoldable pub ping_recv_handler : ℕ → Ping → Option Pong
ping_recv_handler node_version m =
    if leb bip31_version node_version then some (record { pong_nonce = m.nonce }) else none

-- Pong::RecvHandler: what it returns, and the `ping_nonce_sent` that it leaves.
unfoldable pub pong_recv_handler : ℕ → Pong → Bool × ℕ
pong_recv_handler ping_nonce_sent m =
    if ping_nonce_sent == 0
    then (false, ping_nonce_sent)
    else if not (ping_nonce_sent == m.pong_nonce)
    then (false, ping_nonce_sent)
    else (true, 0)

-- A ping that a node of version 60000 or more sends is answered with a pong that, through its bytes,
-- settles the nonce which is waited for, and no other pong does.
pub ping_pong :
    (stale : ℕ) (m : Ping) (node_version : ℕ) (s : Input) (ys : List ℕ)
    → bip31_version ≤ node_version
    → m.nonce < 2 ^ 64
    → m.nonce ≢ 0
    → (pong : Pong) × (ping_recv_handler node_version m ≡ some pong)
      × (Left s (pong_serialize pong ++ ys) → Reads (pong_deserialize stale) pong s ys)
      × (pong_recv_handler m.nonce pong ≡ (true, 0))
      × ((other : Pong)
          → other.pong_nonce ≢ m.nonce
          → pong_recv_handler m.nonce other ≡ (false, m.nonce))
unfolding ping_recv_handler pong_recv_handler pong_serialize pong_deserialize
ping_pong stale m node_version s ys new small nonzero = (
  record { pong_nonce = m.nonce },
  rw (le→leb _ _ new) refl,
  λ l. let (s1, e1, l1) = read_word stale 7 m.nonce s ys small l in (s1, rw e1 refl, l1),
  ground arith,
  λ other differs. ground arith,
)

leb-false : (a b : ℕ) → b < a → leb a b ≡ false
leb-false a b h = ground arith

-- A ping comes back through its bytes into an object of the same version: with its nonce from
-- version 60000 on, and unchanged before, where nothing is written; the bytes are as many as
-- SerializedSize says.
pub deserialize-serialize_ping :
    (stale : ℕ) (m into : Ping) (s : Input) (ys : List ℕ)
    → m.nonce < 2 ^ 64
    → into.protocol_version ≡ m.protocol_version
    → Left s (serialize m ++ ys)
    → Reads (deserialize stale into) (if leb bip31_version m.protocol_version then m else into) s ys
      × (length (serialize m) ≡ serialized_size m)
unfolding deserialize serialize serialized_size
deserialize-serialize_ping stale m into s ys small same l =
    elim (dec_le bip31_version m.protocol_version) [
      | yes new ↦
          let e = le→leb _ _ new in
          let f = ltb-false m.protocol_version bip31_version (omega arith) in
          let (s1, e1, l1) = read_word stale 7 m.nonce s ys small (rw e at l) in
          rw (e, f) ((s1, rw (same, e, e1) refl, l1), length-to_little_endian 8 m.nonce)
      | no old ↦
          let e = leb-false bip31_version m.protocol_version (omega arith) in
          let f = lt→ltb m.protocol_version bip31_version (omega arith) in
          rw (e, f) ((s, rw (same, e) refl, rw e at l), refl)
    ]
