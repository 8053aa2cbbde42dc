-- ===== src/CircularBuffer/Queue.antt =====
-- A buffer behaves as the queue of its last `max_size` elements.
use btcdemo.Prelude.{
  ℕ, zero, suc, ◌+◌, ◌-◌, ◌%◌, ◌≤◌, ◌<◌, ◌≡◌, refl, ap, ◌∙◌, true, false, none, List, [], ◌∷◌, ◌++◌,
  length, get_elem?, get_or, set, ◌==◌, if◌then◌else◌, Bool-cases, inl, inr, arith, dec_lt,
}
use btcdemo.CircularBuffer.{CircularBuffer, new, push_back, pop_front, empty, clear, size, at}
use btcdemo.CircularBuffer.Invariant.{IsValid}
use btcdemo.CircularBuffer.Window.{
  window, window-set, window-suc, contents, length-contents, get_elem?-window, get_elem?_in,
  head-size-tail, size-full, size_not_full, size-push_back, past, past_above, turn_turn,
}

-- The queue: an element that comes to a full one drives the oldest out.
abbrev pub drop_oldest {ℓ} : {A : Type ℓ} → List A → List A
drop_oldest [] = []
drop_oldest (x ∷ xs) = xs

abbrev pub enqueue {ℓ} : {A : Type ℓ} → ℕ → A → List A → List A
enqueue n x xs = (if length xs == n then drop_oldest xs else xs) ++ x ∷ []

abbrev pub dequeue {ℓ} : {A : Type ℓ} → A → List A → A × List A
dequeue dflt [] = (dflt, [])
dequeue dflt (x ∷ xs) = (x, xs)

module _ {ℓ} {A : Type ℓ} (d : A) where
  module _ (x : A) (b : CircularBuffer A) where
    cap-push_back : (push_back x b).max_size ≡ b.max_size
    unfolding push_back
    cap-push_back = refl

    buf-push_back : (push_back x b).buf ≡ set b.buf b.tail x
    unfolding push_back
    buf-push_back = refl

    head-push_back : (push_back x b).head ≡ (if b.full then (b.head + 1) % b.max_size else b.head)
    unfolding push_back
    head-push_back = refl

    next_head-lt : IsValid b → (b.head + 1) % b.max_size < b.max_size
    next_head-lt v = omega (arith, v.head_in)

    push_full :
        IsValid b
        → b.full ≡ true
        → contents d (push_back x b) ≡ drop_oldest (contents d b) ++ x ∷ []
    push_full v e = cc (
      cap-push_back,
      buf-push_back,
      head-push_back,
      size-push_back d x b v,
      e,
      grown,
      ap (λ xs. drop_oldest xs ++ x ∷ []) (window-suc d b.max_size b.buf b.head (size b) some_left),
      size-full d b e,
    )
      where
        some_left : 0 < size b
        some_left = omega (arith, size-full d b e, v.head_in)

        last : ((b.head + 1) % b.max_size + (b.max_size - 1)) % b.max_size ≡ b.tail
        last =
            turn_turn b.max_size b.head (b.max_size - 1)
            ∙ ap (λ (k : ℕ). (b.head + k) % b.max_size) {x = suc (b.max_size - 1)} {y = b.max_size}
                (omega (arith, v.head_in))
            ∙ past_above b.max_size b.head b.max_size (omega arith) (omega (arith, v.head_in))
            ∙ omega (arith, v.full_meets e)

        grown :
            window d b.max_size (set b.buf b.tail x) ((b.head + 1) % b.max_size) b.max_size
            ≡ window d b.max_size b.buf ((b.head + 1) % b.max_size) (b.max_size - 1) ++ x ∷ []
        grown =
            ap (window d b.max_size (set b.buf b.tail x) ((b.head + 1) % b.max_size))
              {x = b.max_size} {y = suc (b.max_size - 1)} (omega (arith, v.head_in))
            ∙ window-set d b.max_size x b.buf (b.max_size - 1) ((b.head + 1) % b.max_size) b.tail
                v.storage (next_head-lt v) (omega (arith, v.head_in)) last

    push_room : IsValid b → b.full ≡ false → contents d (push_back x b) ≡ contents d b ++ x ∷ []
    push_room v e = cc (
      cap-push_back,
      buf-push_back,
      head-push_back,
      size-push_back d x b v,
      e,
      ap (window d b.max_size (set b.buf b.tail x) b.head) {x = size b + 1} {y = suc (size b)}
          (omega arith),
      window-set d b.max_size x b.buf (size b) b.head b.tail v.storage v.head_in
          (size_not_full d b v e) (head-size-tail d b v),
    )

  -- `push_back` appends the element, and drives the oldest out of a full buffer.
  pub contents-push_back :
      (x : A) (b : CircularBuffer A)
      → IsValid b
      → contents d (push_back x b) ≡ enqueue b.max_size x (contents d b)
  contents-push_back x b v = elim (Bool-cases b.full) [
    | inl e ↦ push_full x b v e ∙ ground (arith, length-contents d b, size-full d b e)
    | inr e ↦ push_room x b v e ∙ ground (arith, length-contents d b, size_not_full d b v e)
  ]

  pub empty-size : (b : CircularBuffer A) → IsValid b → empty b ≡ (size b == 0)
  unfolding empty size
  empty-size b v = ground (arith, v.head_in, v.tail_in, v.full_meets)

  pub size-pop_front : (b : CircularBuffer A) → IsValid b → size (pop_front d b).1 ≡ size b - 1
  unfolding size pop_front empty
  size-pop_front b v =
      ground (arith, past b.max_size b.head 1 v.head_in (omega arith), v.tail_in, v.full_meets)

  pop_front_nothing : (b : CircularBuffer A) → empty b ≡ true → pop_front d b ≡ (d, b)
  unfolding pop_front
  pop_front_nothing b e = rw e

  pub pop_front_some :
      (b : CircularBuffer A)
      → empty b ≡ false
      → pop_front d b
        ≡ (get_or b.buf b.head d, record b { head = (b.head + 1) % b.max_size; full = false })
  unfolding pop_front
  pop_front_some b e = rw e

  -- `pop_front` takes the oldest element off, and gives `T()` on the empty buffer.
  pub contents-pop_front :
      (b : CircularBuffer A)
      → IsValid b
      → ((pop_front d b).0, contents d (pop_front d b).1) ≡ dequeue d (contents d b)
  contents-pop_front b v = elim (Bool-cases (size b == 0)) [
    | inl e ↦
        let gone = pop_front_nothing b (empty-size b v ∙ e) in
        let none_left : contents d b ≡ [] =
          ap (window d b.max_size b.buf b.head) {x = size b} {y = 0} (ground arith) in
        cc (gone, none_left)
    | inr e ↦
        let gone = pop_front_some b (empty-size b v ∙ e) in
        let left = size-pop_front b v in
        let split = window-suc d b.max_size b.buf b.head (size b) (ground arith) in
        cc (
          gone,
          left,
          split,
          ap (λ t. t.1.head) gone,
          ap (λ t. t.1.buf) gone,
          ap (λ t. t.1.max_size) gone,
        )
  ]

  get_elem?_out : (xs : List A) (n : ℕ) → length xs ≤ n → get_elem? xs n ≡ none
  get_elem?_out [] n h = refl
  get_elem?_out (x ∷ xs) zero h = elim h [ ]
  get_elem?_out (x ∷ xs) (suc n) h = get_elem?_out xs n (omega arith)

  -- `operator[]` gives the elements in order, and throws outside them.
  pub at-contents : (b : CircularBuffer A) (n : ℕ) → IsValid b → at b n ≡ get_elem? (contents d b) n
  unfolding at
  at-contents b n v = elim (dec_lt n (size b)) [
    | yes p ↦ ground (
      arith,
      get_elem?-window d b.max_size b.buf (size b) b.head n v.head_in p,
      get_elem?_in b.buf ((b.head + n) % b.max_size) d (omega (arith, v.storage, v.head_in)),
    )
    | no p ↦ ground (arith, get_elem?_out (contents d b) n (omega (arith, length-contents d b)))
  ]

  -- A new buffer and a cleared one are empty.
  pub contents-new : (n : ℕ) → contents d (new d n) ≡ []
  unfolding new size
  contents-new n = refl

  pub contents-clear : (b : CircularBuffer A) → contents d (clear b) ≡ []
  contents-clear b =
      ap (window d (clear b).max_size (clear b).buf (clear b).head) {x = size (clear b)} {y = 0}
        (unfold clear size in ground arith)
