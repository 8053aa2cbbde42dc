-- ===== src/CircularBuffer/Runs.antt =====
-- A buffer of three numbers, as in the unit tests.
use btcdemo.Prelude.{ℕ, ◌≡◌, refl, true, false, none, some, [], ◌∷◌, ◌==◌, arith}
use btcdemo.CircularBuffer.{
  CircularBuffer, new, push_back, pop_front, empty, size, at, find_in, exist,
}
use btcdemo.CircularBuffer.Invariant.{IsValid}
use btcdemo.CircularBuffer.History.{pushes, pops, looks, run, run_queue, run_refines}

-- 1, 2, 3 and then 4, which drives 1 out.
abbrev ring : CircularBuffer ℕ
ring = record { buf = 4 ∷ 2 ∷ 3 ∷ []; head = 1; tail = 1; max_size = 3; full = true }

abbrev filled : CircularBuffer ℕ
filled = record { buf = 1 ∷ 2 ∷ 3 ∷ []; head = 0; tail = 0; max_size = 3; full = true }

ring-IsValid : IsValid ring
ring-IsValid = record {
  storage = refl;
  head_in = omega arith;
  tail_in = omega arith;
  full_meets = λ e. refl;
}

filled-IsValid : IsValid filled
filled-IsValid = record {
  storage = refl;
  head_in = omega arith;
  tail_in = omega arith;
  full_meets = λ e. refl;
}

pushed_four : push_back 4 filled ≡ ring
unfolding push_back
pushed_four = refl

run_refines_example :
    run {A = ℕ} 0 (pushes 1 ∷ pushes 2 ∷ pushes 3 ∷ pops ∷ looks 0 ∷ []) (new 0 2)
    ≡ run_queue {A = ℕ} 0 2 (pushes 1 ∷ pushes 2 ∷ pushes 3 ∷ pops ∷ looks 0 ∷ []) []
run_refines_example =
    run_refines 0 (pushes 1 ∷ pushes 2 ∷ pushes 3 ∷ pops ∷ looks 0 ∷ []) 2 (omega arith)

replies :
    run {A = ℕ} 0 (pushes 1 ∷ pushes 2 ∷ pushes 3 ∷ pops ∷ looks 0 ∷ looks 1 ∷ []) (new 0 2)
    ≡ none ∷ none ∷ none ∷ some 2 ∷ some 3 ∷ none ∷ []
unfolding run new push_back pop_front empty at size
replies = refl

-- 1 is gone and still found; 3 is there and is not.
popped_still_there : exist ◌==◌ 1 (pop_front 0 filled).1 ≡ true
unfolding exist find_in pop_front empty size
popped_still_there = refl

newest_missed : exist ◌==◌ 3 (pop_front 0 filled).1 ≡ false
unfolding exist find_in pop_front empty size
newest_missed = refl
