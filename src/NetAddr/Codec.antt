-- ===== src/NetAddr/Codec.antt =====
-- NetAddr::Serialize, Deserialize and SerializedSize of network/include/network_address.h.
-- The words of the protobuf object are written as the bytes that they are in memory.
use btcdemo.Prelude.{ℕ, ◌+◌, ◌%◌, ◌^◌, ◌<◌, ◌≡◌, List, ◌++◌, length, length-append, arith}
use btcdemo.Endian.RoundTrip.{length-to_little_endian}
use btcdemo.Stream.{Input, Result, ok, ◌>>=◌, advance}
use btcdemo.Stream.Window.{Left}
use btcdemo.Serialize.{ser_write_data, ser_read_data, read_elements}
use btcdemo.Serialize.Steps.{regroup, word_step, array_step}
use btcdemo.NetAddr.{NetAddr, IsIp, ip_byte_size}

unfoldable pub serialize : NetAddr → List ℕ
serialize a =
    ser_write_data 4 a.timestamp
    ++ (ser_write_data 8 a.services ++ (a.ip ++ ser_write_data 2 (a.port % 2 ^ 16)))

-- The scope stays what it was.
unfoldable pub deserialize : ℕ → NetAddr → Input → Result (NetAddr × Input)
deserialize stale a s = do
  (timestamp, s1) ← ser_read_data stale 4 s
  (services, s2) ← ser_read_data stale 8 s1
  (ip, s3) ← read_elements stale (length a.ip) s2
  (port, s4) ← ser_read_data stale 2 s3
  ok (record a { ip = ip; port = port; services = services; timestamp = timestamp }, s4)

abbrev pub serialized_size : ℕ
serialized_size = 4 + 8 + ip_byte_size + 2

-- The fields fit their types.
pub record IsAddr (a : NetAddr) : Type 0 where
  pub ip : IsIp a.ip
  pub port_fits : a.port < 2 ^ 16
  pub services_fit : a.services < 2 ^ 64
  pub timestamp_fits : a.timestamp < 2 ^ 32

-- Serialize writes as many bytes as SerializedSize says.
pub length-serialize : (a : NetAddr) → IsIp a.ip → length (serialize a) ≡ serialized_size
unfolding serialize
length-serialize a h = omega (
  arith,
  h.size,
  length-append (ser_write_data 4 a.timestamp)
      (ser_write_data 8 a.services ++ (a.ip ++ ser_write_data 2 (a.port % 2 ^ 16))),
  length-append (ser_write_data 8 a.services) (a.ip ++ ser_write_data 2 (a.port % 2 ^ 16)),
  length-append a.ip (ser_write_data 2 (a.port % 2 ^ 16)),
  length-to_little_endian 4 a.timestamp,
  length-to_little_endian 8 a.services,
  length-to_little_endian 2 (a.port % 2 ^ 16),
)

module _ (stale : ℕ) where
  -- An address that was serialized comes back into any object, whatever stood in the buffers, with
  -- the scope of that object, and the source is SerializedSize bytes further.
  pub deserialize-serialize_addr :
      (a into : NetAddr) (s : Input) (ys : List ℕ)
      → IsAddr a
      → length into.ip ≡ ip_byte_size
      → Left s (serialize a ++ ys)
      → deserialize stale into s
        ≡ ok (record a { scope_id = into.scope_id }, advance s serialized_size)
  unfolding deserialize serialize
  deserialize-serialize_addr a into s ys fits size l =
      let port : a.port % 2 ^ 16 ≡ a.port = omega (arith, fits.port_fits) in
      let (e1, l1) =
        word_step stale 3 a.timestamp s _ fits.timestamp_fits
          (regroup (ser_write_data 4 a.timestamp) _ ys l) in
      let (e2, l2) =
        word_step stale 7 a.services _ _ fits.services_fit
          (regroup (ser_write_data 8 a.services) _ ys l1) in
      let (e3, l3) =
        array_step stale 16 a.ip _ _ fits.ip.size fits.ip.bytes (regroup a.ip _ ys l2) in
      let (e4, l4) = word_step stale 1 (a.port % 2 ^ 16) _ ys (omega (arith, fits.port_fits)) l3 in
      rw (e1, e2, size, e3, e4, port) (ground arith)
