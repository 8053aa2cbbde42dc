-- ===== src/Stream.antt =====
-- utility/include/blob.h (ContainerSink, ContainerSource), utility/include/stream.h and
-- utility/src/stream.cpp (MemoryStream).
-- `ContainerSink::write` appends; what a serializer writes is therefore modelled as the list of the
-- bytes that it appends, and `write` puts it behind the container.
pub mod Window
mod Runs
use btcdemo.Prelude.{
  ℕ, ◌+◌, ◌-◌, min, Bool, true, false, ◌||◌, List, [], ◌++◌, length, take, drop, ltb, ◌==◌,
  if◌then◌else◌,
}

-- The exceptions of the reading side: `std::overflow_error` of ContainerSource::read, and the two
-- `std::ios_base::failure`s of SerReadVarInt.
pub data Error : Type 0 where
  source_overflow non_canonical too_large : Error

pub data Result {ℓ} (A : Type ℓ) : Type ℓ where
  ok : A → Result A
  err : Error → Result A

infixl 5 ◌>>=◌
abbrev pub ◌>>=◌ {ℓ κ} : {A : Type ℓ} {B : Type κ} → Result A → (A → Result B) → Result B
ok a >>= f = f a
err e >>= f = err e

-- A ContainerSource, with the flag of SingletonInterruptor, which a deserializer may raise.
pub record Input : Type 0 where
  pub container : List ℕ
  pub position : ℕ
  pub interrupted : Bool

abbrev pub advance : Input → ℕ → Input
advance s n = record s { position = s.position + n }

abbrev pub interrupt_if : Bool → Input → Input
interrupt_if b s = record s { interrupted = s.interrupted || b }

-- The bytes that `memcpy` puts into the buffer; the function returns their number, or -1 at the end.
unfoldable pub read : ℕ → Input → Result (List ℕ × Input)
read size s =
    let amount = length s.container - s.position in
    let result = min size amount in
    if ltb (length s.container) s.position
    then err source_overflow
    else if s.position == length s.container
    then ok ([], s)
    else ok (take result (drop s.position s.container), advance s result)

unfoldable pub write : List ℕ → Input → Input
write bytes s = record s { container = s.container ++ bytes }

-- `MemoryStream`: sink and source share one vector. `Clear` empties it and leaves the position.
unfoldable pub clear : Input → Input
clear s = record s { container = [] }

pub size : Input → ℕ
size s = length s.container
