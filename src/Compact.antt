-- ===== src/Compact.antt =====
-- consensus/src/compact.cpp and consensus/include/compact.h: the compact form of a 256-bit number.
-- `none` is a failed assertion. A shift by `8 * n` bits is a product or a quotient by 256 ^ n; the
-- 256-bit number loses what is shifted out at its top.
pub mod Size
pub mod Encode
pub mod RoundTrip
mod Runs
use btcdemo.Prelude.{
  ℕ, zero, suc, ◌+◌, ◌-◌, ◌*◌, ◌/◌, ◌%◌, ◌^◌, bit_and, bit_or, Bool, true, false, not, ◌&&◌, ◌||◌,
  Option, none, some, ltb, leb, ◌==◌, if◌then◌else◌,
}

pub record Compact : Type 0 where
  pub normal : ℕ
  pub compact : ℕ
  pub negative : Bool
  pub overflowed : Bool

-- `for (; value != 0; ++byte) value >>= 8;` A 256-bit number takes 32 rounds at most.
logical_size_loop : ℕ → ℕ → ℕ → ℕ
logical_size_loop zero value byte = byte
logical_size_loop (suc fuel) value byte =
    let more = logical_size_loop fuel (value / 256) (byte + 1) in if value == 0 then byte else more

unfoldable pub logical_size : ℕ → ℕ
unfolding logical_size_loop
logical_size value = logical_size_loop 32 value 0

-- SetCompact: the mantissa after its shift, the number, and the two flags.
abbrev pub compact_size : ℕ → ℕ
compact_size compact = compact / 2 ^ 24

abbrev pub compact_word : ℕ → ℕ
compact_word compact =
    let size = compact_size compact in
    let word = bit_and compact 0x007f_ffff in if leb size 3 then word / 256 ^ (3 - size) else word

unfoldable pub set_compact : ℕ → Compact → Compact
set_compact compact c =
    let size = compact_size compact in
    let word = compact_word compact in
    record c {
      normal = if leb size 3 then word else word * 256 ^ (size - 3) % 2 ^ 256;
      negative = not (word == 0) && not (bit_and compact 0x0080_0000 == 0);
      overflowed =
          not (word == 0)
          && (ltb 34 size || (ltb 0xff word && ltb 33 size) || (ltb 0xffff word && ltb 32 size));
    }

-- GetCompact: the mantissa, made smaller when its top bit is the sign's, and the exponent.
abbrev pub mantissa : ℕ → ℕ → ℕ
mantissa normal size =
    if leb size 3
    then normal % 2 ^ 64 * 256 ^ (3 - size) % 2 ^ 64 % 2 ^ 32
    else normal / 256 ^ (size - 3) % 2 ^ 64 % 2 ^ 32

pack : ℕ → ℕ → Option ℕ
pack word size =
    if bit_and word 0xff80_0000 == 0 && ltb size 256
    then some (bit_or word (size * 2 ^ 24 % 2 ^ 64) % 2 ^ 32)
    else none

unfoldable pub get_compact_of : ℕ → Option ℕ
unfolding pack
get_compact_of normal =
    let size = logical_size normal in
    let word = mantissa normal size in
    if bit_and word 0x0080_0000 == 0 then pack word size else pack (word / 256) (size + 1)

unfoldable pub get_compact : Compact → Option Compact
get_compact c = elim (get_compact_of c.normal) [
  | none ↦ none
  | some bits ↦ some (record c { compact = bits })
]

abbrev pub fresh : Compact
fresh = record { normal = 0; compact = 0; negative = false; overflowed = false }

-- The two constructors.
unfoldable pub from_compact : ℕ → Option Compact
from_compact compact = get_compact (set_compact compact fresh)

unfoldable pub from_normal : ℕ → Option Compact
from_normal normal = get_compact (record fresh { normal = normal })
