-- ===== src/Prelude/Hash.antt =====
-- utility/include/arithmetic.h: `Hash256`, an array of 32 bytes, with its equality.
use Prim.Native.Nat.{ℕ}
use mathlib.Core.Path.{◌≡◌, refl}
use mathlib.Core.Logic.{◌↔◌}
use mathlib.Core.Bool.{Bool, true, false, ◌&&◌}
use mathlib.Core.List.{List, [], ◌∷◌}
use native.Mathlib.Omega.{arith}
use btcdemo.Prelude.Bytes.{IsByte, All}
use btcdemo.Prelude.Lists.{length, replicate}
use btcdemo.Prelude.Tests.{◌==◌, ==_iff}

-- Arrays and vectors of bytes compare element by element.
abbrev pub bytes_eq : List ℕ → List ℕ → Bool
bytes_eq [] [] = true
bytes_eq [] (y ∷ ys) = false
bytes_eq (x ∷ xs) [] = false
bytes_eq (x ∷ xs) (y ∷ ys) = (x == y) && bytes_eq xs ys

pub bytes_eq_iff : (xs ys : List ℕ) → (bytes_eq xs ys ≡ true) ↔ (xs ≡ ys)
bytes_eq_iff [] [] = ((λ _. refl), (λ _. refl))
bytes_eq_iff [] (y ∷ ys) = ((λ e. cc), (λ e. cc))
bytes_eq_iff (x ∷ xs) [] = ((λ e. cc), (λ e. cc))
bytes_eq_iff (x ∷ xs) (y ∷ ys) = (
  (λ e. ground (arith, (bytes_eq_iff xs ys).0, ==_iff x y)),
  (λ e. ground (arith, (bytes_eq_iff xs ys).1, ==_iff x y)),
)

pub bytes_eq_refl : (xs : List ℕ) → bytes_eq xs xs ≡ true
bytes_eq_refl xs = (bytes_eq_iff xs xs).1 refl

abbrev pub Hash256 : Type 0
Hash256 = List ℕ

-- `crypto::null_hash`, and an array after `fill(0)`.
abbrev pub null_hash : Hash256
null_hash = replicate 32 0

pub record IsHash (h : Hash256) : Type 0 where
  pub size : length h ≡ 32
  pub bytes : All IsByte h
