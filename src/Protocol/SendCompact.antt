-- ===== src/Protocol/SendCompact.antt =====
-- class SendCmpct of network/include/protocol/send_compact.h and
-- network/src/protocol/send_compact.cpp.
use btcdemo.Prelude.{ℕ, ◌+◌, ◌^◌, ◌<◌, refl, Bool, ◌&&◌, ◌||◌, List, ◌++◌, ◌==◌, arith}
use btcdemo.Stream.{Input, Result, ok, ◌>>=◌}
use btcdemo.Stream.Window.{Left}
use btcdemo.Serialize.{ser_write_data, ser_read_data}
use btcdemo.Serialize.Steps.{regroup}
use btcdemo.Serialize.Objects.{Reads, read_word}

pub record SendCmpct : Type 0 where
  pub high_bandwidth_mode : ℕ
  pub version : ℕ

unfoldable pub clear : SendCmpct → SendCmpct
clear m = record { high_bandwidth_mode = 0; version = 0 }

unfoldable pub is_valid : SendCmpct → Bool
is_valid m = (m.version == 1) || (m.version == 2)

abbrev pub serialized_size : ℕ
serialized_size = 1 + 8

unfoldable pub send_cmpct_eq : SendCmpct → SendCmpct → Bool
send_cmpct_eq a b = (a.high_bandwidth_mode == b.high_bandwidth_mode) && (a.version == b.version)

unfoldable pub serialize : SendCmpct → List ℕ
serialize m = ser_write_data 1 m.high_bandwidth_mode ++ ser_write_data 8 m.version

unfoldable pub deserialize : ℕ → Input → Result (SendCmpct × Input)
deserialize stale s = do
  (high_bandwidth_mode, s1) ← ser_read_data stale 1 s
  (version, s2) ← ser_read_data stale 8 s1
  ok (record { high_bandwidth_mode = high_bandwidth_mode; version = version }, s2)

-- A `sendcmpct` message that was serialized comes back whole, and the source stands behind it.
pub deserialize-serialize_send_cmpct :
    (stale : ℕ) (m : SendCmpct) (s : Input) (ys : List ℕ)
    → m.high_bandwidth_mode < 2
    → m.version < 2 ^ 64
    → Left s (serialize m ++ ys)
    → Reads (deserialize stale) m s ys
unfolding deserialize serialize
deserialize-serialize_send_cmpct stale m s ys mode_fits version_fits l =
    let (s1, e1, l1) =
      read_word stale 0 m.high_bandwidth_mode s _ (omega arith)
        (regroup (ser_write_data 1 m.high_bandwidth_mode) _ ys l) in
    let (s2, e2, l2) = read_word stale 7 m.version s1 ys version_fits l1 in
    (s2, rw (e1, e2) refl, l2)
