-- ===== src/Protocol/Inventory.antt =====
-- classes InvVect, Inv and Addr of network/include/protocol and network/src/protocol
-- (inventory_vector, inventory and addr).
use btcdemo.Prelude.{
  ℕ, ◌+◌, ◌%◌, ◌^◌, ◌≤◌, ◌<◌, ◌≡◌, refl, sym, ap, ◌∙◌, Bool, true, false, ◌&&◌, List, [], ◌∷◌, ◌++◌,
  length, length-append, ◌==◌, arith,
}
use btcdemo.Prelude.Bytes.{All, All-map}
use btcdemo.Prelude.Hash.{Hash256, null_hash, IsHash, bytes_eq}
use btcdemo.Endian.RoundTrip.{length-to_little_endian}
use btcdemo.Stream.{Input, Result, ok, ◌>>=◌, advance}
use btcdemo.Stream.Window.{Left, advance-Left}
use btcdemo.Serialize.{
  ser_write_data, ser_read_data, read_elements, var_int_size, max_vardata_size, ser_write_var_int,
}
use btcdemo.Serialize.Steps.{regroup}
use btcdemo.Serialize.VarInt.{length-ser_write_var_int}
use btcdemo.NetAddr.{NetAddr, new, addr_eq, ip_byte_size}
use btcdemo.NetAddr.Codec.{serialized_size, IsAddr, length-serialize, deserialize-serialize_addr}
use btcdemo.NetAddr.Codec.{serialize as serialize_addr, deserialize as deserialize_addr}
use btcdemo.Serialize.Objects.{
  write_all, serialize_vector, deserialize_vector, Reads, ReadsBack, deserialize_vector-Left,
  read_word, read_array,
}

pub record InvVect : Type 0 where
  pub type : ℕ
  pub hash : Hash256

unfoldable pub clear : InvVect → InvVect
clear v = record { type = 0; hash = null_hash }

abbrev pub inv_vect_size : ℕ
inv_vect_size = 4 + 32

unfoldable pub inv_vect_eq : InvVect → InvVect → Bool
inv_vect_eq a b = (a.type == b.type) && bytes_eq a.hash b.hash

unfoldable pub write_inv_vect : InvVect → List ℕ
write_inv_vect v = ser_write_data 4 v.type ++ v.hash

unfoldable pub read_inv_vect : ℕ → Input → Result (InvVect × Input)
read_inv_vect stale s = do
  (type, s1) ← ser_read_data stale 4 s
  (hash, s2) ← read_elements stale 32 s1
  ok (record { type = type; hash = hash }, s2)

-- The message `inv` is its vector, and the message `addr` its list of addresses.
abbrev pub Inv : Type 0
Inv = List InvVect

abbrev pub Addr : Type 0
Addr = List NetAddr

abbrev pub not_empty {ℓ} : {A : Type ℓ} → List A → Bool
not_empty [] = false
not_empty (x ∷ xs) = true

unfoldable pub inv_is_valid : Inv → Bool
inv_is_valid inv_vects = not_empty inv_vects

unfoldable pub addr_is_valid : Addr → Bool
addr_is_valid addr_list = not_empty addr_list

-- `operator==` of vectors.
abbrev pub vectors_eq {ℓ} : {A : Type ℓ} → (A → A → Bool) → List A → List A → Bool
vectors_eq eq [] [] = true
vectors_eq eq [] (y ∷ ys) = false
vectors_eq eq (x ∷ xs) [] = false
vectors_eq eq (x ∷ xs) (y ∷ ys) = eq x y && vectors_eq eq xs ys

unfoldable pub inv_eq : Inv → Inv → Bool
inv_eq a b = vectors_eq inv_vect_eq a b

unfoldable pub addr_list_eq : Addr → Addr → Bool
addr_list_eq a b = vectors_eq addr_eq a b

-- The loop that adds the sizes of the elements.
unfoldable pub add_sizes {ℓ} : {A : Type ℓ} → ℕ → List A → ℕ → ℕ
add_sizes element [] size = size
add_sizes element (x ∷ xs) size = add_sizes element xs (size + element)

unfoldable pub inv_serialized_size : Inv → ℕ
unfolding add_sizes
inv_serialized_size inv_vects = add_sizes inv_vect_size inv_vects (var_int_size (length inv_vects))

unfoldable pub addr_serialized_size : Addr → ℕ
unfolding add_sizes
addr_serialized_size addr_list =
    add_sizes serialized_size addr_list (var_int_size (length addr_list))

unfoldable pub serialize_inv : Inv → List ℕ
unfolding serialize_vector
serialize_inv inv_vects = serialize_vector write_inv_vect inv_vects

unfoldable pub deserialize_inv : ℕ → ℕ → Input → Result (Inv × Input)
unfolding deserialize_vector
deserialize_inv stale returned s = deserialize_vector stale (read_inv_vect stale) returned s

unfoldable pub serialize_addr_list : Addr → List ℕ
unfolding serialize_vector
serialize_addr_list addr_list = serialize_vector serialize_addr addr_list

-- The elements of the resized vector are new addresses.
unfoldable pub deserialize_addr_list : ℕ → ℕ → Input → Result (Addr × Input)
unfolding deserialize_vector
deserialize_addr_list stale returned s =
    deserialize_vector stale (deserialize_addr stale new) returned s

pub record IsInvVect (v : InvVect) : Type 0 where
  pub type_fits : v.type < 2 ^ 32
  pub hash : IsHash v.hash

read_inv_vect-Left :
    (stale : ℕ) (v : InvVect) → IsInvVect v → ReadsBack write_inv_vect (read_inv_vect stale) v
unfolding read_inv_vect write_inv_vect
read_inv_vect-Left stale v fits s ys l =
    let (s1, e1, l1) =
      read_word stale 3 v.type s _ fits.type_fits (regroup (ser_write_data 4 v.type) _ ys l) in
    let (s2, e2, l2) = read_array stale 32 v.hash s1 ys fits.hash.size fits.hash.bytes l1 in
    (s2, rw (e1, e2) refl, l2)

-- An `inv` message that was serialized comes back whole, and the source stands behind it.
pub deserialize_inv-serialize_inv :
    (stale returned : ℕ) (v : Inv) (s : Input) (ys : List ℕ)
    → All IsInvVect v
    → length v ≤ max_vardata_size
    → stale % 2 ^ 64 < 2 ^ 16
    → Left s (serialize_inv v ++ ys)
    → Reads (deserialize_inv stale returned) v s ys
unfolding deserialize_inv serialize_inv
deserialize_inv-serialize_inv stale returned v s ys fits small clean l =
    deserialize_vector-Left stale write_inv_vect (read_inv_vect stale) returned v s ys
      (All-map v (read_inv_vect-Left stale) fits) small clean l

-- An address without a scope, which is not sent.
pub record IsSent (a : NetAddr) : Type 0 where
  pub addr : IsAddr a
  pub no_scope : a.scope_id ≡ 0

pub read_addr-Left :
    (stale : ℕ) (into : NetAddr) (a : NetAddr) (s : Input) (ys : List ℕ)
    → length into.ip ≡ ip_byte_size
    → IsAddr a
    → Left s (serialize_addr a ++ ys)
    → Reads (deserialize_addr stale into) (record a { scope_id = into.scope_id }) s ys
read_addr-Left stale into a s ys size fits l = (
  advance s serialized_size,
  deserialize-serialize_addr stale a into s ys fits size l,
  rw (length-serialize a fits.ip) at (advance-Left s (serialize_addr a) ys l),
)

sent_back :
    (stale : ℕ) (a : NetAddr) → IsSent a → ReadsBack serialize_addr (deserialize_addr stale new) a
unfolding new
sent_back stale a fits s ys l =
    let (s1, e1, l1) = read_addr-Left stale new a s ys refl fits.addr l in
    (s1, e1 ∙ ap (λ (id : ℕ). ok (record a { scope_id = id }, s1)) (sym fits.no_scope), l1)

-- An `addr` message that was serialized comes back whole, if no address has a scope.
pub deserialize_addr-serialize_addr :
    (stale returned : ℕ) (v : Addr) (s : Input) (ys : List ℕ)
    → All IsSent v
    → length v ≤ max_vardata_size
    → stale % 2 ^ 64 < 2 ^ 16
    → Left s (serialize_addr_list v ++ ys)
    → Reads (deserialize_addr_list stale returned) v s ys
unfolding deserialize_addr_list serialize_addr_list
deserialize_addr-serialize_addr stale returned v s ys fits small clean l =
    deserialize_vector-Left stale serialize_addr (deserialize_addr stale new) returned v s ys
      (All-map v (sent_back stale) fits) small clean l

add_sizes-write_all {ℓ} :
    {A : Type ℓ} (write : A → List ℕ) (element : ℕ) (xs : List A) (size : ℕ)
    → All (λ x. length (write x) ≡ element) xs
    → size + length (write_all write xs) ≡ add_sizes element xs size
unfolding add_sizes write_all
add_sizes-write_all write element [] size h = omega arith
add_sizes-write_all write element (x ∷ xs) size (one, rest) = omega (
  arith,
  one,
  length-append (write x) (write_all write xs),
  add_sizes-write_all write element xs (size + element) rest,
)

length-serialize_vector {ℓ} :
    {A : Type ℓ} (write : A → List ℕ) (element : ℕ) (xs : List A)
    → All (λ x. length (write x) ≡ element) xs
    → length (serialize_vector write xs) ≡ add_sizes element xs (var_int_size (length xs))
unfolding serialize_vector
length-serialize_vector write element xs h = omega (
  arith,
  length-append (ser_write_var_int (length xs)) (write_all write xs),
  length-ser_write_var_int (length xs),
  add_sizes-write_all write element xs (var_int_size (length xs)) h,
)

inv_vect_length : (v : InvVect) → IsInvVect v → length (write_inv_vect v) ≡ inv_vect_size
unfolding write_inv_vect
inv_vect_length v fits = omega (
  arith,
  length-append (ser_write_data 4 v.type) v.hash,
  length-to_little_endian 4 v.type,
  fits.hash.size,
)

-- SerializedSize of `inv` and of `addr` is the number of the bytes that Serialize writes.
pub serialized_size_lem :
    (inv : Inv) (addr : Addr)
    → All IsInvVect inv
    → All IsAddr addr
    → (length (serialize_inv inv) ≡ inv_serialized_size inv)
      × (length (serialize_addr_list addr) ≡ addr_serialized_size addr)
unfolding serialize_inv inv_serialized_size serialize_addr_list addr_serialized_size
serialized_size_lem inv addr fits fits' = (
  length-serialize_vector write_inv_vect inv_vect_size inv (All-map inv inv_vect_length fits),
  length-serialize_vector serialize_addr serialized_size addr
      (All-map addr (λ a h. length-serialize a h.ip) fits'),
)
