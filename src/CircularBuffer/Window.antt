-- ===== src/CircularBuffer/Window.antt =====
-- The queue that a valid buffer stands for, oldest element first, and each operation on it.
use native.Mathlib.Nat.{mod-add-mod, mod-eq_of_lt, mod-eq-sub-mod}
use btcdemo.Prelude.{
  ℕ, zero, suc, ◌+◌, ◌-◌, ◌%◌, ◌≤◌, ◌<◌, ◌≡◌, ◌≢◌, refl, sym, ap, ap₂, ◌∙◌, true, false, some, List,
  [], ◌∷◌, ◌++◌, length, get_elem?, get_or, set, ltb, if◌then◌else◌, arith, dec_lt,
}
use btcdemo.CircularBuffer.{CircularBuffer, push_back, size}
use btcdemo.CircularBuffer.Invariant.{IsValid, size-le}

module _ {ℓ} {A : Type ℓ} where
  pub get_or-set_same :
      (xs : List A) (i : ℕ) (v d : A) → i < length xs → get_or (set xs i v) i d ≡ v
  get_or-set_same [] i v d h = elim h [ ]
  get_or-set_same (x ∷ xs) zero v d h = refl
  get_or-set_same (x ∷ xs) (suc i) v d h = get_or-set_same xs i v d (omega arith)

  pub get_or-set_other :
      (xs : List A) (i j : ℕ) (v d : A) → i ≢ j → get_or (set xs i v) j d ≡ get_or xs j d
  get_or-set_other [] i j v d h = refl
  get_or-set_other (x ∷ xs) zero zero v d h = absurd (h refl)
  get_or-set_other (x ∷ xs) zero (suc j) v d h = refl
  get_or-set_other (x ∷ xs) (suc i) zero v d h = refl
  get_or-set_other (x ∷ xs) (suc i) (suc j) v d h = get_or-set_other xs i j v d (λ e. h (ap suc e))

  pub get_elem?_in :
      (xs : List A) (i : ℕ) (d : A) → i < length xs → get_elem? xs i ≡ some (get_or xs i d)
  get_elem?_in [] i d h = elim h [ ]
  get_elem?_in (x ∷ xs) zero d h = refl
  get_elem?_in (x ∷ xs) (suc i) d h = get_elem?_in xs i d (omega arith)

-- Steps round the ring.
pub turn_turn : (cap h n : ℕ) → ((h + 1) % cap + n) % cap ≡ (h + suc n) % cap
turn_turn cap h n = rw mod-add-mod (ap (λ (k : ℕ). k % cap) (omega arith))

pub past_below : (n h k : ℕ) → h + k < n → (h + k) % n ≡ h + k
past_below n h k p = mod-eq_of_lt p

pub past_above : (n h k : ℕ) → n ≤ h + k → h + k < n + n → (h + k) % n ≡ h + k - n
past_above n h k p q =
    mod-eq-sub-mod {n = h + k} {m = n} p ∙ mod-eq_of_lt {n = h + k - n} {m = n} (omega arith)

pub past : (n h k : ℕ) → h < n → k ≤ n → (h + k) % n ≡ (if ltb (h + k) n then h + k else h + k - n)
past n h k hh hk = elim (dec_lt (h + k) n) [
  | yes p ↦ past_below n h k p ∙ ground arith
  | no p ↦ past_above n h k (omega arith) (omega arith) ∙ ground arith
]

module _ {ℓ} {A : Type ℓ} (d : A) (cap : ℕ) where
  -- The `n` elements from index `h` on, round the array.
  abbrev pub window : List A → ℕ → ℕ → List A
  window buf h zero = []
  window buf h (suc n) = get_or buf h d ∷ window buf ((h + 1) % cap) n

  pub length-window : (buf : List A) (h n : ℕ) → length (window buf h n) ≡ n
  length-window buf h zero = refl
  length-window buf h (suc n) = ap suc (length-window buf ((h + 1) % cap) n)

  pub window-set :
      (x : A) (buf : List A) (n h i : ℕ)
      → length buf ≡ cap
      → h < cap
      → n < cap
      → (h + n) % cap ≡ i
      → window (set buf i x) h (suc n) ≡ window buf h n ++ x ∷ []
  window-set x buf zero h i full hh hn e =
      let at_h : h ≡ i = sym (mod-eq_of_lt hh) ∙ ap (λ (k : ℕ). k % cap) (omega arith) ∙ e in
      rw (← at_h) (ap (λ y. y ∷ []) (get_or-set_same buf h x d (omega arith)))
  window-set x buf (suc n) h i full hh hn e =
      ap₂ ◌∷◌ (get_or-set_other buf i h x d (ground (arith, past cap h (suc n) hh (omega arith)))) (
        window-set x buf n ((h + 1) % cap) i full (omega arith) (omega arith)
          (turn_turn cap h n ∙ e))

  pub get_elem?-window :
      (buf : List A) (n h i : ℕ)
      → h < cap
      → i < n
      → get_elem? (window buf h n) i ≡ some (get_or buf ((h + i) % cap) d)
  get_elem?-window buf zero h i hh hi = elim hi [ ]
  get_elem?-window buf (suc n) h zero hh hi =
      ap (λ (k : ℕ). some (get_or buf k d))
        (sym (mod-eq_of_lt hh) ∙ ap (λ (k : ℕ). k % cap) (omega arith))
  get_elem?-window buf (suc n) h (suc i) hh hi =
      get_elem?-window buf n ((h + 1) % cap) i (omega arith) (omega arith)
      ∙ ap (λ (k : ℕ). some (get_or buf k d)) (turn_turn cap h i)

  pub window-suc :
      (buf : List A) (h n : ℕ)
      → 0 < n
      → window buf h n ≡ get_or buf h d ∷ window buf ((h + 1) % cap) (n - 1)
  window-suc buf h zero p = elim p [ ]
  window-suc buf h (suc n) p = ap (λ k. window buf h (suc k)) (omega arith)

module _ {ℓ} {A : Type ℓ} (d : A) where
  -- The elements of a buffer, oldest first.
  abbrev pub contents : CircularBuffer A → List A
  contents b = window d b.max_size b.buf b.head (size b)

  pub length-contents : (b : CircularBuffer A) → length (contents b) ≡ size b
  length-contents b = length-window d b.max_size b.buf b.head (size b)

  -- From the head, `size` steps lead to the tail.
  pub head-size-tail : (b : CircularBuffer A) → IsValid b → (b.head + size b) % b.max_size ≡ b.tail
  unfolding size
  head-size-tail b v = ground (
    arith,
    past b.max_size b.head (size b) v.head_in (size-le b v),
    v.head_in,
    v.tail_in,
    v.full_meets,
  )

  pub size-full : (b : CircularBuffer A) → b.full ≡ true → size b ≡ b.max_size
  unfolding size
  size-full b e = rw e

  pub size_not_full : (b : CircularBuffer A) → IsValid b → b.full ≡ false → size b < b.max_size
  unfolding size
  size_not_full b v e = ground (arith, v.head_in, v.tail_in)

  abbrev rest_of : List A → List A
  rest_of [] = []
  rest_of (x ∷ xs) = xs

  pub size-push_back :
      (x : A) (b : CircularBuffer A)
      → IsValid b
      → size (push_back x b) ≡ (if b.full then b.max_size else size b + 1)
  unfolding size push_back
  size-push_back x b v = ground (
    arith,
    past b.max_size b.head 1 v.head_in (omega arith),
    past b.max_size b.tail 1 v.tail_in (omega arith),
    v.full_meets,
  )
