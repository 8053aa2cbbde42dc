-- ===== src/Serialize/Objects.antt =====
-- Vectors of objects, as Serializer and Deserializer of utility/include/serialize.h write and read
-- them, and the steps by which the fields of an object are read back.
use mathlib.Core.List.{append_assoc}
use btcdemo.Prelude.{
  ℕ, zero, suc, ◌+◌, ◌%◌, ◌^◌, ◌≤◌, ◌<◌, ◌≡◌, refl, ap, ap₂, subst, List, [], ◌∷◌, ◌++◌, map,
  length, ltb,
}
use btcdemo.Prelude.Bytes.{IsByte, All}
use btcdemo.Stream.{Input, Result, ok, ◌>>=◌, advance, interrupt_if}
use btcdemo.Stream.Window.{Left, advance-Left}
use btcdemo.Serialize.{
  ser_write_var_int, ser_read_var_int, ser_write_data, ser_read_data, read_elements, var_int_size,
  max_block_size, max_vardata_size, serialize_bytes, deserialize_string,
}
use btcdemo.Serialize.Steps.{word_step, array_step}
use btcdemo.Serialize.Text.{NotNul, deserialize-serialize_string}
use btcdemo.Serialize.VarInt.{ser_read_var_int-write, length-ser_write_var_int}
use btcdemo.Serialize.Vectors.{length-serialize_bytes}

module _ {ℓ} {A : Type ℓ} where
  -- Reading gives the object, and leaves what follows it.
  abbrev pub Reads : (Input → Result (A × Input)) → A → Input → List ℕ → Type ℓ
  Reads read x s ys = (s' : Input) × (read s ≡ ok (x, s')) × Left s' ys

  -- What was written is read back, wherever it stands.
  abbrev pub ReadsBack : (A → List ℕ) → (Input → Result (A × Input)) → A → Type ℓ
  ReadsBack write read x = (s : Input) (ys : List ℕ) → Left s (write x ++ ys) → Reads read x s ys

module _ {ℓ} {A : Type ℓ} where
  -- The elements one after the other.
  unfoldable pub write_all : (A → List ℕ) → List A → List ℕ
  write_all write [] = []
  write_all write (x ∷ xs) = write x ++ write_all write xs

  unfoldable pub serialize_vector : (A → List ℕ) → List A → List ℕ
  unfolding write_all
  serialize_vector write xs = ser_write_var_int (length xs) ++ write_all write xs

  -- The loop over the resized vector. `returned` is what Deserialize of one element returns: 32 for a
  -- hash, and for an object no value that is known, since that function has no return statement.
  unfoldable pub read_objects :
      (Input → Result (A × Input)) → ℕ → ℕ → ℕ → Input → Result (List A × Input)
  read_objects read returned zero size s = ok ([], s)
  read_objects read returned (suc n) size s = do
    (x, s1) ← read s
    (xs, s2) ←
        read_objects read returned n ((size + returned) % 2 ^ 64)
          (interrupt_if (ltb max_block_size ((size + returned) % 2 ^ 64)) s1)
    ok (x ∷ xs, s2)

  unfoldable pub deserialize_vector :
      ℕ → (Input → Result (A × Input)) → ℕ → Input → Result (List A × Input)
  unfolding read_objects
  deserialize_vector stale read returned s = do
    (count, s1) ← ser_read_var_int stale s
    read_objects read returned count 1 s1

  pub read_objects-Left :
      (write : A → List ℕ) (read : Input → Result (A × Input)) (returned : ℕ) (xs : List A)
      (size : ℕ) (s : Input) (ys : List ℕ)
      → All (ReadsBack write read) xs
      → Left s (write_all write xs ++ ys)
      → Reads (read_objects read returned (length xs) size) xs s ys
  unfolding read_objects write_all
  read_objects-Left write read returned [] size s ys back l = (s, refl, l)
  read_objects-Left write read returned (x ∷ xs) size s ys (one, rest) l =
      let split : Left s (write x ++ (write_all write xs ++ ys)) =
        subst (Left s) (append_assoc (write x) (write_all write xs) ys) l in
      let (s1, e1, l1) = one s _ split in
      let more = (size + returned) % 2 ^ 64 in
      let s1' = interrupt_if (ltb max_block_size more) s1 in
      let (s2, e2, l2) =
        read_objects-Left write read returned xs more s1' ys rest
          (record { inside = l1.inside; bytes = l1.bytes }) in
      (s2, rw (e1, e2) refl, l2)

  -- A vector of objects that was written comes back whole, and the source stands behind it.
  pub deserialize_vector-Left :
      (stale : ℕ) (write : A → List ℕ) (read : Input → Result (A × Input)) (returned : ℕ)
      (xs : List A) (s : Input) (ys : List ℕ)
      → All (ReadsBack write read) xs
      → length xs ≤ max_vardata_size
      → stale % 2 ^ 64 < 2 ^ 16
      → Left s (serialize_vector write xs ++ ys)
      → Reads (deserialize_vector stale read returned) xs s ys
  unfolding deserialize_vector serialize_vector
  deserialize_vector-Left stale write read returned xs s ys back small clean l =
      let split : Left s (ser_write_var_int (length xs) ++ (write_all write xs ++ ys)) =
        subst (Left s) (append_assoc (ser_write_var_int (length xs)) (write_all write xs) ys) l in
      let count = ser_read_var_int-write stale (length xs) s _ split small clean in
      let behind =
        rw (length-ser_write_var_int (length xs)) at
          (advance-Left s (ser_write_var_int (length xs)) (write_all write xs ++ ys) split) in
      let (s2, e2, l2) = read_objects-Left write read returned xs 1 _ ys back behind in
      (s2, rw (count, e2) refl, l2)

module _ {ℓ} {A : Type ℓ} (write : A → List ℕ) (part : A → A)
    (same : (x : A) → write (part x) ≡ write x) where
  length-map : (xs : List A) → length (map part xs) ≡ length xs
  length-map [] = refl
  length-map (x ∷ xs) = ap suc (length-map xs)

  write_all-map : (xs : List A) → write_all write (map part xs) ≡ write_all write xs
  unfolding write_all
  write_all-map [] = refl
  write_all-map (x ∷ xs) = ap₂ (λ (v w : List ℕ). v ++ w) (same x) (write_all-map xs)

  pub serialize_vector-map :
      (xs : List A) → serialize_vector write (map part xs) ≡ serialize_vector write xs
  unfolding serialize_vector
  serialize_vector-map xs =
      ap₂ (λ (n : ℕ) (bytes : List ℕ). ser_write_var_int n ++ bytes) (length-map xs)
        (write_all-map xs)

  -- A vector of objects of which only a part is written comes back with these parts.
  pub deserialize_vector-part :
      (stale : ℕ) (read : Input → Result (A × Input)) (returned : ℕ) (xs : List A) (s : Input)
      (ys : List ℕ)
      → All (λ x. ReadsBack write read (part x)) xs
      → length xs ≤ max_vardata_size
      → stale % 2 ^ 64 < 2 ^ 16
      → Left s (serialize_vector write xs ++ ys)
      → Reads (deserialize_vector stale read returned) (map part xs) s ys
  deserialize_vector-part stale read returned xs s ys back small clean l =
      deserialize_vector-Left stale write read returned (map part xs) s ys (parts xs back)
        (rw (length-map xs) small) clean (rw (serialize_vector-map xs) l)
    where
      parts :
          (xs : List A)
          → All (λ x. ReadsBack write read (part x)) xs
          → All (ReadsBack write read) (map part xs)
      parts [] back = tt
      parts (x ∷ xs) (one, rest) = (one, parts xs rest)

module _ (stale : ℕ) where
  pub read_word :
      (n v : ℕ) (s : Input) (ys : List ℕ)
      → v < 256 ^ suc n
      → Left s (ser_write_data (suc n) v ++ ys)
      → Reads (ser_read_data stale (suc n)) v s ys
  read_word n v s ys small l =
      let (e, l1) = word_step stale n v s ys small l in (advance s (suc n), e, l1)

  pub read_array :
      (n : ℕ) (v : List ℕ) (s : Input) (ys : List ℕ)
      → length v ≡ n
      → All IsByte v
      → Left s (v ++ ys)
      → Reads (read_elements stale n) v s ys
  read_array n v s ys size bytes l =
      let (e, l1) = array_step stale n v s ys size bytes l in (advance s n, e, l1)

  pub read_string :
      (v : List ℕ) (s : Input) (ys : List ℕ)
      → All NotNul v
      → length v ≤ max_vardata_size
      → stale % 2 ^ 64 < 2 ^ 16
      → Left s (serialize_bytes v ++ ys)
      → Reads (deserialize_string stale) v s ys
  read_string v s ys chars small clean l = (
    advance s (var_int_size (length v) + length v),
    deserialize-serialize_string stale v s ys l chars small clean,
    rw (length-serialize_bytes v) at (advance-Left s (serialize_bytes v) ys l),
  )
