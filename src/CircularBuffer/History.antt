-- ===== src/CircularBuffer/History.antt =====
-- A client's calls in order, with what each returns.
use btcdemo.Prelude.{
  ℕ, ◌<◌, ◌≡◌, refl, ap, ap₂, ◌∙◌, Option, none, some, List, [], ◌∷◌, get_elem?, arith,
}
use btcdemo.CircularBuffer.{CircularBuffer, new, push_back, pop_front, clear, at}
use btcdemo.CircularBuffer.Invariant.{
  IsValid, new-IsValid, push_back-IsValid, pop_front-IsValid, clear-IsValid,
}
use btcdemo.CircularBuffer.Window.{contents}
use btcdemo.CircularBuffer.Queue.{
  enqueue, dequeue, contents-push_back, contents-pop_front, at-contents, contents-new,
  contents-clear,
}

pub data Op {ℓ} (A : Type ℓ) : Type ℓ where
  pushes : A → Op A
  pops : Op A
  clears : Op A
  looks : ℕ → Op A

-- The replies of the buffer, and those of the bounded queue.
module _ {ℓ} {A : Type ℓ} (d : A) where
  unfoldable pub run : List (Op A) → CircularBuffer A → List (Option A)
  run [] b = []
  run (pushes x ∷ ops) b = none ∷ run ops (push_back x b)
  run (pops ∷ ops) b = some (pop_front d b).0 ∷ run ops (pop_front d b).1
  run (clears ∷ ops) b = none ∷ run ops (clear b)
  run (looks n ∷ ops) b = at b n ∷ run ops b

  unfoldable pub run_queue : ℕ → List (Op A) → List A → List (Option A)
  run_queue n [] xs = []
  run_queue n (pushes x ∷ ops) xs = none ∷ run_queue n ops (enqueue n x xs)
  run_queue n (pops ∷ ops) xs = some (dequeue d xs).0 ∷ run_queue n ops (dequeue d xs).1
  run_queue n (clears ∷ ops) xs = none ∷ run_queue n ops []
  run_queue n (looks i ∷ ops) xs = get_elem? xs i ∷ run_queue n ops xs

  cap-pop_front : (b : CircularBuffer A) → (pop_front d b).1.max_size ≡ b.max_size
  unfolding pop_front
  cap-pop_front b = ground arith

  cap-push_back : (x : A) (b : CircularBuffer A) → (push_back x b).max_size ≡ b.max_size
  unfolding push_back
  cap-push_back x b = refl

  cap-clear : (b : CircularBuffer A) → (clear b).max_size ≡ b.max_size
  unfolding clear
  cap-clear b = refl

  run-run_queue :
      (ops : List (Op A)) (b : CircularBuffer A)
      → IsValid b
      → run ops b ≡ run_queue b.max_size ops (contents d b)
  unfolding run run_queue
  run-run_queue [] b v = refl
  run-run_queue (pushes x ∷ ops) b v = ap (◌∷◌ none) (
      run-run_queue ops (push_back x b) (push_back-IsValid x b v)
      ∙ ap₂ (λ n xs. run_queue n ops xs) (cap-push_back x b) (contents-push_back d x b v))
  run-run_queue (pops ∷ ops) b v =
      ap₂ (λ y r. some y ∷ r) (ap (λ t. t.0) (contents-pop_front d b v))
        (run-run_queue ops (pop_front d b).1 (pop_front-IsValid d b v)
          ∙ ap₂ (λ n xs. run_queue n ops xs) (cap-pop_front b)
              (ap (λ t. t.1) (contents-pop_front d b v)))
  run-run_queue (clears ∷ ops) b v = ap (◌∷◌ none) (
      run-run_queue ops (clear b) (clear-IsValid b v)
      ∙ ap₂ (λ n xs. run_queue n ops xs) (cap-clear b) (contents-clear d b))
  run-run_queue (looks n ∷ ops) b v = ap₂ ◌∷◌ (at-contents d b n v) (run-run_queue ops b v)

  cap-new : (n : ℕ) → (new d n).max_size ≡ n
  unfolding new
  cap-new n = refl

  -- No sequence of pushes, pops, clears and reads tells a new buffer of capacity `n` from the queue
  -- that keeps the last `n` elements, when `n` is not zero.
  pub run_refines : (ops : List (Op A)) (n : ℕ) → 0 < n → run ops (new d n) ≡ run_queue n ops []
  run_refines ops n h =
      run-run_queue ops (new d n) (new-IsValid d n h)
      ∙ ap₂ (λ k xs. run_queue k ops xs) (cap-new n) (contents-new d n)
