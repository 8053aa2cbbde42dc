-- ===== src/Stream/Runs.antt =====
-- A stream that was read from, cleared and written to again.
use btcdemo.Prelude.{◌≡◌, refl, false, [], ◌∷◌}
use btcdemo.Stream.{Input, err, source_overflow, read, write, clear}

abbrev half_read : Input
half_read = record { container = 1 ∷ 2 ∷ 3 ∷ 4 ∷ []; position = 2; interrupted = false }

-- The position stays, so the next read is past the end.
cleared : read 1 (write (9 ∷ []) (clear half_read)) ≡ err source_overflow
unfolding read write clear
cleared = refl
