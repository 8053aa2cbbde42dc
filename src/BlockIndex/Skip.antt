-- ===== src/BlockIndex/Skip.antt =====
-- GetSkipHeight lies below the height.
use btcdemo.Prelude.{ℕ, ◌-◌, ◌≤◌, ◌<◌, arith}
use btcdemo.Prelude.Bits.{bit_and-le}
use btcdemo.BlockIndex.{invert_lowest_one, get_skip_height}

invert_lowest_one-le : (n : ℕ) → invert_lowest_one n ≤ n - 1
invert_lowest_one-le n = bit_and-le n (n - 1)

-- The height to skip to is strictly lower than every height above zero.
pub get_skip_height-lt : (height : ℕ) → 0 < height → get_skip_height height < height
unfolding get_skip_height
get_skip_height-lt height h = ground (
  arith,
  invert_lowest_one-le height,
  invert_lowest_one-le (height - 1),
  invert_lowest_one-le (invert_lowest_one (height - 1)),
)
