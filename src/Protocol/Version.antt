-- ===== src/Protocol/Version.antt =====
-- class Version of network/include/protocol/version.h and network/src/protocol/version.cpp, but for
-- its RecvHandler.
use btcdemo.Prelude.{
  ℕ, ◌+◌, ◌%◌, ◌^◌, ◌<◌, ◌≡◌, refl, Bool, not, ◌&&◌, List, [], ◌++◌, length, leb, ◌==◌,
  if◌then◌else◌, Bool-cases, inl, inr, arith,
}
use btcdemo.Prelude.Bytes.{All}
use btcdemo.Prelude.Hash.{bytes_eq}
use btcdemo.Stream.{Input, Result, ok, ◌>>=◌}
use btcdemo.Stream.Window.{Left}
use btcdemo.Serialize.{
  ser_write_data, ser_read_data, serialize_bytes, deserialize_string, var_int_size,
}
use btcdemo.Serialize.Steps.{regroup}
use btcdemo.Serialize.Text.{NotNul}
use btcdemo.NetAddr.{NetAddr, new, ip_byte_size, addr_eq}
use btcdemo.NetAddr.{clear as clear_addr}
use btcdemo.NetAddr.Category.{is_valid as addr_is_valid}
use btcdemo.NetAddr.Codec.{
  serialize as serialize_addr, deserialize as deserialize_addr, serialized_size as addr_size,
  IsAddr,
}
use btcdemo.Protocol.{
  Text, max_sub_version_size, unknown_version, relayed_txs_version, protocol_version, cut,
}
use btcdemo.Serialize.Objects.{Reads, read_word, read_string}
use btcdemo.Protocol.Cut.{cut-NotNul, cut-small, cut-cut}
use btcdemo.Protocol.Inventory.{read_addr-Left}

pub record Version : Type 0 where
  pub protocol_version : ℕ
  pub services : ℕ
  pub timestamp : ℕ
  pub addr_recv : NetAddr
  pub addr_from : NetAddr
  pub nonce : ℕ
  pub user_agent : Text
  pub start_height : ℕ
  pub relay : ℕ

unfoldable pub default : Version
default = record {
  protocol_version = unknown_version;
  services = 0;
  timestamp = 0;
  addr_recv = new;
  addr_from = new;
  nonce = 0;
  user_agent = [];
  start_height = 0;
  relay = 0;
}

unfoldable pub is_valid : Version → Bool
is_valid m =
    not (m.protocol_version == unknown_version)
    && (not (m.services == 0)
        && (not (m.timestamp == 0) && (addr_is_valid m.addr_recv && not (m.nonce == 0))))

unfoldable pub clear : Version → Version
clear m = record {
  protocol_version = unknown_version;
  services = 0;
  timestamp = 0;
  addr_recv = clear_addr m.addr_recv;
  addr_from = clear_addr m.addr_from;
  nonce = 0;
  user_agent = [];
  start_height = 0;
  relay = 0;
}

unfoldable pub serialized_size : Version → ℕ
serialized_size m =
    4
    + 8
    + 8
    + addr_size
    + addr_size
    + 8
    + var_int_size (length m.user_agent)
    + length m.user_agent
    + 4
    + (if leb relayed_txs_version m.protocol_version then 1 else 0)

-- Of an address: its time, its services, its bytes and its port.
unfoldable pub whole_addr_eq : NetAddr → NetAddr → Bool
whole_addr_eq a b = (a.timestamp == b.timestamp) && ((a.services == b.services) && addr_eq a b)

unfoldable pub version_eq : Version → Version → Bool
version_eq a b =
    (a.protocol_version == b.protocol_version)
    && ((a.services == b.services)
        && ((a.timestamp == b.timestamp)
            && (whole_addr_eq a.addr_recv b.addr_recv
                && (whole_addr_eq a.addr_from b.addr_from
                    && ((a.nonce == b.nonce)
                        && (bytes_eq a.user_agent b.user_agent
                            && ((a.start_height == b.start_height) && (a.relay == b.relay))))))))

unfoldable pub serialize : Version → List ℕ
serialize m =
    ser_write_data 4 m.protocol_version
    ++ (ser_write_data 8 m.services
        ++ (ser_write_data 8 m.timestamp
            ++ (serialize_addr m.addr_recv
                ++ (serialize_addr m.addr_from
                    ++ (ser_write_data 8 m.nonce
                        ++ (serialize_bytes (cut max_sub_version_size m.user_agent)
                            ++ (ser_write_data 4 m.start_height
                                ++ (if leb relayed_txs_version m.protocol_version
                                    then ser_write_data 1 m.relay
                                    else []))))))))

-- `if (protocol_version_ >= kRelayedTxsVersion) deserializer.SerialRead(&relay_)`
unfoldable pub read_relay : ℕ → ℕ → ℕ → Input → Result (ℕ × Input)
read_relay stale protocol_version relay s =
    let read = ser_read_data stale 1 s in
    if leb relayed_txs_version protocol_version then read else ok (relay, s)

unfoldable pub deserialize : ℕ → Version → Input → Result (Version × Input)
deserialize stale into s = do
  (protocol_version, s1) ← ser_read_data stale 4 s
  (services, s2) ← ser_read_data stale 8 s1
  (timestamp, s3) ← ser_read_data stale 8 s2
  (addr_recv, s4) ← deserialize_addr stale into.addr_recv s3
  (addr_from, s5) ← deserialize_addr stale into.addr_from s4
  (nonce, s6) ← ser_read_data stale 8 s5
  (user_agent, s7) ← deserialize_string stale s6
  (start_height, s8) ← ser_read_data stale 4 s7
  (relay, s9) ← read_relay stale protocol_version into.relay s8
  ok (
    record {
      protocol_version = protocol_version;
      services = services;
      timestamp = timestamp;
      addr_recv = addr_recv;
      addr_from = addr_from;
      nonce = nonce;
      user_agent = cut max_sub_version_size user_agent;
      start_height = start_height;
      relay = relay;
    },
    s9,
  )

-- The fields fit their types, and the user agent has no zero byte.
pub record IsVersion (m : Version) : Type 0 where
  pub version_fits : m.protocol_version < 2 ^ 32
  pub services_fit : m.services < 2 ^ 64
  pub timestamp_fits : m.timestamp < 2 ^ 64
  pub addr_recv : IsAddr m.addr_recv
  pub addr_from : IsAddr m.addr_from
  pub nonce_fits : m.nonce < 2 ^ 64
  pub agent_chars : All NotNul m.user_agent
  pub height_fits : m.start_height < 2 ^ 32
  pub relay_fits : m.relay < 2

-- What arrives: the user agent cut, the scopes of the receiving object, and the relay flag from
-- version 70001 on.
abbrev pub received : Version → Version → Version
received m into = record m {
  addr_recv = record m.addr_recv { scope_id = into.addr_recv.scope_id };
  addr_from = record m.addr_from { scope_id = into.addr_from.scope_id };
  user_agent = cut max_sub_version_size m.user_agent;
  relay = if leb relayed_txs_version m.protocol_version then m.relay else into.relay;
}

read_relay-Left :
    (stale version relay into : ℕ) (s : Input) (ys : List ℕ)
    → relay < 2
    → Left s ((if leb relayed_txs_version version then ser_write_data 1 relay else []) ++ ys)
    → Reads
        (read_relay stale version into)
        (if leb relayed_txs_version version then relay else into)
        s
        ys
unfolding read_relay
read_relay-Left stale version relay into s ys fits l =
    elim (Bool-cases (leb relayed_txs_version version)) [
      | inl e ↦ rw e (read_word stale 0 relay s ys (omega arith) (rw e at l))
      | inr e ↦ rw e (s, refl, rw e at l)
    ]

-- If the uninitialised variable of SerReadVarInt holds a number below 2^16 and no character of the
-- user agent is zero, a `version` message that was serialized arrives field by field, with its user
-- agent cut to 256 characters, without the scopes of its addresses, and with its relay flag from
-- version 70001 on; the source stands behind it.
pub deserialize-serialize_version :
    (stale : ℕ) (m into : Version) (s : Input) (ys : List ℕ)
    → IsVersion m
    → length into.addr_recv.ip ≡ ip_byte_size
    → length into.addr_from.ip ≡ ip_byte_size
    → stale % 2 ^ 64 < 2 ^ 16
    → Left s (serialize m ++ ys)
    → Reads (deserialize stale into) (received m into) s ys
unfolding deserialize serialize
deserialize-serialize_version stale m into s ys fits size size' clean l =
    let agent = cut max_sub_version_size m.user_agent in
    let (s1, e1, l1) =
      read_word stale 3 m.protocol_version s _ fits.version_fits
        (regroup (ser_write_data 4 m.protocol_version) _ ys l) in
    let (s2, e2, l2) =
      read_word stale 7 m.services s1 _ fits.services_fit
        (regroup (ser_write_data 8 m.services) _ ys l1) in
    let (s3, e3, l3) =
      read_word stale 7 m.timestamp s2 _ fits.timestamp_fits
        (regroup (ser_write_data 8 m.timestamp) _ ys l2) in
    let (s4, e4, l4) =
      read_addr-Left stale into.addr_recv m.addr_recv s3 _ size fits.addr_recv
        (regroup (serialize_addr m.addr_recv) _ ys l3) in
    let (s5, e5, l5) =
      read_addr-Left stale into.addr_from m.addr_from s4 _ size' fits.addr_from
        (regroup (serialize_addr m.addr_from) _ ys l4) in
    let (s6, e6, l6) =
      read_word stale 7 m.nonce s5 _ fits.nonce_fits (regroup (ser_write_data 8 m.nonce) _ ys l5) in
    let (s7, e7, l7) =
      read_string stale agent s6 _ (cut-NotNul 256 m.user_agent fits.agent_chars)
        (omega (arith, cut-small 256 m.user_agent)) clean
        (regroup (serialize_bytes agent) _ ys l6) in
    let (s8, e8, l8) =
      read_word stale 3 m.start_height s7 _ fits.height_fits
        (regroup (ser_write_data 4 m.start_height) _ ys l7) in
    let (s9, e9, l9) =
      read_relay-Left stale m.protocol_version m.relay into.relay s8 ys fits.relay_fits l8 in
    (s9, rw (e1, e2, e3, e4, e5, e6, e7, e8, e9, cut-cut 256 m.user_agent) refl, l9)
