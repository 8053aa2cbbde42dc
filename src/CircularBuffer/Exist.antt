-- ===== src/CircularBuffer/Exist.antt =====
-- `exist` searches from the beginning of the array, so it is right only while the head stands there.
use btcdemo.Prelude.{
  ℕ, zero, suc, ◌+◌, ◌-◌, ◌%◌, ◌≤◌, ◌<◌, ◌≡◌, refl, sym, ap, ◌∙◌, Bool, true, List, [], ◌∷◌, length,
  get_or, take, drop, arith,
}
use btcdemo.CircularBuffer.{CircularBuffer, pop_front, size, find_in, exist}
use btcdemo.CircularBuffer.Invariant.{IsValid, size-le}
use btcdemo.CircularBuffer.Window.{window, contents, past_below}
use btcdemo.CircularBuffer.Queue.{empty-size, size-pop_front, pop_front_some}

module _ {ℓ} {A : Type ℓ} (d : A) where
  drop-get_or : (xs : List A) (h : ℕ) → h < length xs → drop h xs ≡ get_or xs h d ∷ drop (suc h) xs
  drop-get_or [] h p = elim p [ ]
  drop-get_or (x ∷ xs) zero p = refl
  drop-get_or (x ∷ xs) (suc h) p = drop-get_or xs h (omega arith)

  window_straight :
      (buf : List A) (n k h : ℕ)
      → h + k ≤ n
      → n ≤ length buf
      → window d n buf h k ≡ take k (drop h buf)
  window_straight buf n zero h p q = refl
  window_straight buf n (suc zero) h p q = rw (drop-get_or buf h (omega arith))
  window_straight buf n (suc (suc k)) h p q =
      let next : (h + 1) % n ≡ suc h = past_below n h 1 (omega arith) ∙ omega arith in
      rw (drop-get_or buf h (omega arith), next)
        (ap (◌∷◌ (get_or buf h d)) (window_straight buf n (suc k) (suc h) (omega arith) q))

module _ {ℓ} {A : Type ℓ} (d : A) (eq : A → A → Bool) where
  find_in-head : (x : A) (xs : List A) → eq x x ≡ true → find_in eq x (x ∷ xs) ≡ true
  unfolding find_in
  find_in-head x xs e = rw e

  take-head :
      (buf : List A) (n : ℕ)
      → 0 < n
      → 0 < length buf
      → (xs : List A) × (take n buf ≡ get_or buf 0 d ∷ xs)
  take-head [] n p q = absurd (omega arith)
  take-head (x ∷ buf) zero p q = absurd (omega arith)
  take-head (x ∷ buf) (suc n) p q = (take n buf, refl)

  -- With the head at the beginning of the array `exist` searches the elements of the buffer.
  pub exist-contents :
      (x : A) (b : CircularBuffer A)
      → IsValid b
      → b.head ≡ 0
      → exist eq x b ≡ find_in eq x (contents d b)
  unfolding exist
  exist-contents x b v front = ap (find_in eq x) (
      sym (
        window_straight d b.buf b.max_size (size b) 0 (omega (arith, size-le b v))
          (omega (arith, v.storage)))
      ∙ ap (λ (h : ℕ). window d b.max_size b.buf h (size b)) (sym front))

  -- The element that `pop_front` has just taken off a buffer of two elements or more, whose head
  -- stands at the beginning of the array, is still found by `exist`.
  pub exist_popped :
      (b : CircularBuffer A)
      → IsValid b
      → b.head ≡ 0
      → 2 ≤ size b
      → eq (get_or b.buf 0 d) (get_or b.buf 0 d) ≡ true
      → exist eq (pop_front d b).0 (pop_front d b).1 ≡ true
  unfolding exist
  exist_popped b v front two same =
      let gone = pop_front_some d b (empty-size d b v ∙ ground arith) in
      let (xs, seen) =
        take-head b.buf (size b - 1) (omega arith) (omega (arith, v.storage, v.head_in)) in
      let popped : (pop_front d b).0 ≡ get_or b.buf 0 d =
        cc (ap (λ t. t.0) gone, ap (λ (k : ℕ). get_or b.buf k d) front) in
      let searched : take (size (pop_front d b).1) (pop_front d b).1.buf ≡ get_or b.buf 0 d ∷ xs =
        cc (size-pop_front d b v, ap (λ t. t.1.buf) gone, seen) in
      rw (popped, searched) (find_in-head (get_or b.buf 0 d) xs same)
