-- ===== src/Compact/Runs.antt =====
-- A target of four bytes, whose low byte the compact form drops.
use btcdemo.Prelude.{◌≡◌, refl, false, some, arith}
use btcdemo.Compact.{Compact, from_normal, get_compact, get_compact_of, logical_size}
use btcdemo.Compact.RoundTrip.{Reads, from_normal-Reads}

from_normal-Reads_example : (c : Compact) × Reads 0x1234_5678 c
from_normal-Reads_example = from_normal-Reads 0x1234_5678 (omega arith)

four_bytes :
    from_normal 0x1234_5678
    ≡ some (record {
      normal = 0x1234_5678;
      compact = 0x0412_3456;
      negative = false;
      overflowed = false;
    })
unfolding from_normal get_compact get_compact_of logical_size
four_bytes = refl
