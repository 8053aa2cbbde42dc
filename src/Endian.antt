-- ===== src/Endian.antt =====
-- utility/include/util_endian.h. A `T` of `sizeof(T)` bytes is its bit pattern, a number below
-- 256 ^ sizeof(T); `in >>= 8` is `/ 256`, and `<< (8 * i)` is `* 256 ^ i` cut to the size of `T`.
pub mod RoundTrip
mod Runs
use btcdemo.Prelude.{ℕ, zero, suc, ◌+◌, ◌*◌, ◌/◌, ◌%◌, ◌^◌, bit_or, List, [], ◌∷◌}

-- The number is `sizeof(T)`, the rounds of the loop over the bytes from the lowest address.
unfoldable pub to_little_endian : ℕ → ℕ → List ℕ
to_little_endian zero in_value = []
to_little_endian (suc n) in_value = in_value % 256 ∷ to_little_endian n (in_value / 256)

-- The bytes from `out_high` down: the list holds what lies above.
big_loop : ℕ → ℕ → List ℕ → List ℕ
big_loop zero in_value above = above
big_loop (suc n) in_value above = big_loop n (in_value / 256) (in_value % 256 ∷ above)

unfoldable pub to_big_endian : ℕ → ℕ → List ℕ
unfolding big_loop
to_big_endian size in_value = big_loop size in_value []

-- `out |= static_cast<T>(*low) << (8 * i)`; the list holds the bytes from `low` on.
from_little_loop : ℕ → List ℕ → ℕ → ℕ → ℕ
from_little_loop size [] i out = out
from_little_loop size (b ∷ bs) i out =
    from_little_loop size bs (i + 1) (bit_or out (b * 256 ^ i % 256 ^ size))

unfoldable pub from_little_endian : ℕ → List ℕ → ℕ
unfolding from_little_loop
from_little_endian size bytes = from_little_loop size bytes 0 0

-- `out = (out << 8) | static_cast<T>(*low)`
from_big_loop : ℕ → List ℕ → ℕ → ℕ
from_big_loop size [] out = out
from_big_loop size (b ∷ bs) out = from_big_loop size bs (bit_or b (out * 256 % 256 ^ size))

unfoldable pub from_big_endian : ℕ → List ℕ → ℕ
unfolding from_big_loop
from_big_endian size bytes = from_big_loop size bytes 0
