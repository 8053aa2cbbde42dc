-- ===== src/CircularBuffer/Invariant.antt =====
-- The representation invariant of the ring, and that every operation keeps it.
use btcdemo.Prelude.{ℕ, ◌≤◌, ◌<◌, ◌≡◌, refl, ◌∙◌, true, length, length-set, length-replicate, arith}
use btcdemo.CircularBuffer.{CircularBuffer, new, push_back, pop_front, clear, size}

pub record IsValid {ℓ} {A : Type ℓ} (b : CircularBuffer A) : Type 0 where
  pub storage : length b.buf ≡ b.max_size
  pub head_in : b.head < b.max_size
  pub tail_in : b.tail < b.max_size
  pub full_meets : b.full ≡ true → b.head ≡ b.tail

module _ {ℓ} {A : Type ℓ} where
  pub new-IsValid : (dflt : A) (n : ℕ) → 0 < n → IsValid (new dflt n)
  unfolding new
  new-IsValid dflt n h = record {
    storage = length-replicate n dflt;
    head_in = h;
    tail_in = h;
    full_meets = λ e. refl;
  }

  pub push_back-IsValid : (x : A) (b : CircularBuffer A) → IsValid b → IsValid (push_back x b)
  unfolding push_back
  push_back-IsValid x b v = record {
    storage = length-set b.buf b.tail x ∙ v.storage;
    head_in = ground (arith, v.head_in);
    tail_in = omega (arith, v.head_in);
    full_meets = λ e. ground arith;
  }

  pub pop_front-IsValid : (d : A) (b : CircularBuffer A) → IsValid b → IsValid (pop_front d b).1
  unfolding pop_front
  pop_front-IsValid d b v = ground arith

  pub clear-IsValid : (b : CircularBuffer A) → IsValid b → IsValid (clear b)
  unfolding clear
  clear-IsValid b v = ground arith

  -- The size is at most the capacity.
  pub size-le : (b : CircularBuffer A) → IsValid b → size b ≤ b.max_size
  unfolding size
  size-le b v = ground (arith, v.head_in, v.tail_in)
