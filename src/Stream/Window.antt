-- ===== src/Stream/Window.antt =====
-- What `read` returns, in terms of the bytes that are still to be read.
use btcdemo.Prelude.{
  ℕ, zero, suc, ◌+◌, ◌≤◌, ◌<◌, ◌≡◌, refl, sym, ap, ◌∙◌, List, [], ◌∷◌, ◌++◌, length, length-append,
  length-drop, take, drop, arith,
}
use btcdemo.Stream.{Input, ok, err, source_overflow, advance, read, write, clear}

-- `xs` is what the source has still to give.
pub record Left (s : Input) (xs : List ℕ) : Type 0 where
  pub inside : s.position ≤ length s.container
  pub bytes : drop s.position s.container ≡ xs

module _ {ℓ} {A : Type ℓ} where
  pub take-append : (xs ys : List A) → take (length xs) (xs ++ ys) ≡ xs
  take-append [] ys = refl
  take-append (x ∷ xs) ys = ap (◌∷◌ x) (take-append xs ys)

  pub drop-append : (xs ys : List A) → drop (length xs) (xs ++ ys) ≡ ys
  drop-append [] ys = refl
  drop-append (x ∷ xs) ys = drop-append xs ys

  drop-nil : (n : ℕ) → drop {A = A} n [] ≡ []
  drop-nil zero = refl
  drop-nil (suc n) = refl

  pub drop-drop : (m n : ℕ) (xs : List A) → drop n (drop m xs) ≡ drop (m + n) xs
  drop-drop zero n xs = ap (λ (t : ℕ). drop t xs) {x = n} {y = zero + n} (omega arith)
  drop-drop (suc m) zero [] = sym (drop-nil (suc m + zero))
  drop-drop (suc m) (suc n) [] = sym (drop-nil (suc m + suc n))
  drop-drop (suc m) n (x ∷ xs) =
      drop-drop m n xs
      ∙ ap (λ (t : ℕ). drop t (x ∷ xs)) {x = suc (m + n)} {y = suc m + n} (omega arith)

pub length-Left :
    (s : Input) (xs : List ℕ) → Left s xs → s.position + length xs ≡ length s.container
length-Left s xs h = omega (arith, ap length h.bytes, length-drop s.position s.container, h.inside)

-- Reading as many bytes as a prefix has gives the prefix, and leaves what follows it.
pub read-Left :
    (s : Input) (xs ys : List ℕ)
    → Left s (xs ++ ys)
    → 0 < length xs
    → read (length xs) s ≡ ok (xs, advance s (length xs))
unfolding read
read-Left s xs ys h p =
    ground (arith, length-Left s (xs ++ ys) h, length-append xs ys, h.bytes, take-append xs ys)

pub advance-Left :
    (s : Input) (xs ys : List ℕ) → Left s (xs ++ ys) → Left (advance s (length xs)) ys
advance-Left s xs ys h = record {
  inside = omega (arith, length-Left s (xs ++ ys) h, length-append xs ys);
  bytes =
      sym (drop-drop s.position (length xs) s.container)
      ∙ ap (drop (length xs)) h.bytes
      ∙ drop-append xs ys;
}

-- At the end of the container nothing is read.
pub read_end : (n : ℕ) (s : Input) → s.position ≡ length s.container → read n s ≡ ok ([], s)
unfolding read
read_end n s h = ground arith

-- What is written behind a source is what it gives next.
pub write-Left : (s : Input) (xs ys : List ℕ) → Left s xs → Left (write ys s) (xs ++ ys)
unfolding write
write-Left s xs ys h = record {
  inside = omega (arith, h.inside, length-append s.container ys);
  bytes = drop-append_left s.position s.container ys h.inside ∙ ap (λ t. t ++ ys) h.bytes;
}
  where
    drop-append_left :
        (n : ℕ) (us vs : List ℕ) → n ≤ length us → drop n (us ++ vs) ≡ drop n us ++ vs
    drop-append_left zero us vs k = refl
    drop-append_left (suc n) [] vs k = absurd (omega arith)
    drop-append_left (suc n) (u ∷ us) vs k = drop-append_left n us vs (omega arith)

-- `MemoryStream::Clear` keeps the position, so a stream that was read from and cleared throws on
-- its next read, until as many bytes as it had given are written again.
pub read-clear :
    (n : ℕ) (s : Input) (more : List ℕ)
    → length more < s.position
    → read n (write more (clear s)) ≡ err source_overflow
unfolding read write clear
read-clear n s more h = ground arith
