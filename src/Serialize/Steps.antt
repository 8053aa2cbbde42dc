-- ===== src/Serialize/Steps.antt =====
-- One field of an object read back: a word, or an array of bytes, with what follows it left.
use mathlib.Core.List.{append_assoc}
use btcdemo.Prelude.{ℕ, suc, ◌^◌, ◌<◌, ◌≡◌, subst, List, ◌++◌, length}
use btcdemo.Prelude.Bytes.{IsByte, All}
use btcdemo.Stream.{Input, ok, advance}
use btcdemo.Stream.Window.{Left, advance-Left}
use btcdemo.Serialize.{ser_write_data, ser_read_data, read_elements}
use btcdemo.Serialize.VarInt.{ser_read_data-Left, advance-Left_data}
use btcdemo.Serialize.Vectors.{read_elements-Left}

-- The first of several fields in front.
pub regroup :
    {s : Input} (xs ys zs : List ℕ) → Left s ((xs ++ ys) ++ zs) → Left s (xs ++ (ys ++ zs))
regroup {s} xs ys zs h = subst (Left s) (append_assoc xs ys zs) h

module _ (stale : ℕ) where
  pub word_step :
      (n v : ℕ) (s : Input) (ys : List ℕ)
      → v < 256 ^ suc n
      → Left s (ser_write_data (suc n) v ++ ys)
      → (ser_read_data stale (suc n) s ≡ ok (v, advance s (suc n))) × Left (advance s (suc n)) ys
  word_step n v s ys small h =
      (ser_read_data-Left stale n v s ys h small, advance-Left_data stale (suc n) v s ys h)

  pub array_step :
      (n : ℕ) (v : List ℕ) (s : Input) (ys : List ℕ)
      → length v ≡ n
      → All IsByte v
      → Left s (v ++ ys)
      → (read_elements stale n s ≡ ok (v, advance s n)) × Left (advance s n) ys
  array_step n v s ys size bytes h =
      (rw size at (read_elements-Left stale v s ys h bytes), rw size at (advance-Left s v ys h))
