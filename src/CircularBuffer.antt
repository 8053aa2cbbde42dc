-- ===== src/CircularBuffer.antt =====
-- utility/include/circular_buffer.h. `max_size_` is the length of the array, `none` an access outside
-- it. The element type is any; `dflt` is `T()`.
pub mod Invariant
pub mod Window
pub mod Queue
pub mod History
pub mod Exist
mod Runs
use btcdemo.Prelude.{
  ℕ, ◌+◌, ◌-◌, ◌%◌, ◌^◌, Bool, true, false, not, ◌&&◌, Option, none, some, List, length, get_elem?,
  get_or, set, leb, ltb, ◌==◌, if◌then◌else◌, replicate, take, [], ◌∷◌, ◌||◌,
}

pub record CircularBuffer {ℓ} (A : Type ℓ) : Type ℓ where
  pub buf : List A
  pub head : ℕ
  pub tail : ℕ
  pub max_size : ℕ
  pub full : Bool

module _ {ℓ} {A : Type ℓ} where
  unfoldable pub new : A → ℕ → CircularBuffer A
  new dflt max_size = record {
    buf = replicate max_size dflt;
    head = 0;
    tail = 0;
    max_size = max_size;
    full = false;
  }

  unfoldable pub push_back : A → CircularBuffer A → CircularBuffer A
  push_back item b =
      let head = if b.full then (b.head + 1) % b.max_size else b.head in
      let tail = (b.tail + 1) % b.max_size in
      record b { buf = set b.buf b.tail item; head = head; tail = tail; full = head == tail }

  unfoldable pub empty : CircularBuffer A → Bool
  empty b = not b.full && (b.head == b.tail)

  unfoldable pub pop_front : A → CircularBuffer A → A × CircularBuffer A
  pop_front dflt b =
      if empty b
      then (dflt, b)
      else (get_or b.buf b.head dflt, record b { head = (b.head + 1) % b.max_size; full = false })

  unfoldable pub clear : CircularBuffer A → CircularBuffer A
  clear b = record b { head = b.tail; full = false }

  unfoldable pub size : CircularBuffer A → ℕ
  size b =
      if b.full
      then b.max_size
      else if leb b.head b.tail
      then b.tail - b.head
      else b.tail + b.max_size - b.head

  abbrev pub capacity : CircularBuffer A → ℕ
  capacity b = b.max_size

  -- `operator[]`: `none` is `std::out_of_range`.
  unfoldable pub at : CircularBuffer A → ℕ → Option A
  at b n = if leb (size b) n then none else get_elem? b.buf ((b.head + n) % b.max_size)

  -- `std::find` over the first elements of an array.
  unfoldable pub find_in : (A → A → Bool) → A → List A → Bool
  find_in eq val [] = false
  find_in eq val (x ∷ xs) = eq x val || find_in eq val xs

  -- The search starts at the beginning of the array, not at `head_`.
  unfoldable pub exist : (A → A → Bool) → A → CircularBuffer A → Bool
  exist eq val b = find_in eq val (take (size b) b.buf)
