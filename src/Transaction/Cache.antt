-- ===== src/Transaction/Cache.antt =====
-- The hash that a transaction keeps is the hash of what it holds.
use btcdemo.Prelude.{ℕ, ◌≡◌, refl, Bool, false, List, Bool-cases, ◌⊎◌, inl, inr}
use btcdemo.Prelude.Hash.{Hash256, null_hash, bytes_eq, bytes_eq_iff}
use btcdemo.Transaction.{
  TxIn, TxOut, Transaction, serialize, new, set_version, set_inputs, set_outputs, set_lock_time,
  assign, get_hash, construct, copy,
}

-- The objects that the constructors, the setters, the assignment and GetHash make, where the memory
-- of a new object holds `memory`; Deserialize, which keeps the cache, is not among them.
pub data Reachable (double_sha256 : List ℕ → Hash256) (memory : Hash256)
    : Transaction → Type 0 where
  made : Reachable double_sha256 memory new
  constructed :
      (version : ℕ) (inputs : List TxIn) (outputs : List TxOut) (lock_time : ℕ)
      → Reachable double_sha256 memory
          (construct double_sha256 memory version inputs outputs lock_time)
  copied : (t : Transaction) → Reachable double_sha256 memory (copy double_sha256 memory t)
  versioned :
      (v : ℕ) (tx : Transaction)
      → Reachable double_sha256 memory tx
      → Reachable double_sha256 memory (set_version v tx)
  with_inputs :
      (in_place : Bool) (inputs : List TxIn) (tx : Transaction)
      → Reachable double_sha256 memory tx
      → Reachable double_sha256 memory (set_inputs in_place inputs tx)
  with_outputs :
      (outputs : List TxOut) (tx : Transaction)
      → Reachable double_sha256 memory tx
      → Reachable double_sha256 memory (set_outputs outputs tx)
  locked :
      (t : ℕ) (tx : Transaction)
      → Reachable double_sha256 memory tx
      → Reachable double_sha256 memory (set_lock_time t tx)
  assigned :
      (in_place : Bool) (b tx : Transaction)
      → Reachable double_sha256 memory tx
      → Reachable double_sha256 memory (assign in_place b tx)
  hashed :
      (tx : Transaction)
      → Reachable double_sha256 memory tx
      → Reachable double_sha256 memory (get_hash double_sha256 tx).1

module _ (double_sha256 : List ℕ → Hash256) (memory : Hash256) where
  abbrev IsCached : Transaction → Type 0
  IsCached tx = (tx.hash_cache ≡ null_hash) ⊎ (tx.hash_cache ≡ double_sha256 (serialize tx))

  get_hash-IsCached : (tx : Transaction) → IsCached tx → IsCached (get_hash double_sha256 tx).1
  unfolding get_hash serialize
  get_hash-IsCached tx h = elim (Bool-cases (bytes_eq tx.hash_cache null_hash)) [
    | inl e ↦ rw (get_hash, e) (inr refl)
    | inr e ↦ rw (get_hash, e) h
  ]

  Reachable-IsCached :
      {tx : Transaction} → memory ≡ null_hash → Reachable double_sha256 memory tx → IsCached tx
  unfolding new construct copy set_version set_inputs set_outputs set_lock_time assign
  Reachable-IsCached zeroed made = inl refl
  Reachable-IsCached zeroed (constructed version inputs outputs lock_time) =
      get_hash-IsCached _ (inl zeroed)
  Reachable-IsCached zeroed (copied t) = get_hash-IsCached _ (inl zeroed)
  Reachable-IsCached zeroed (versioned v tx r) = inl refl
  Reachable-IsCached zeroed (with_inputs in_place inputs tx r) = inl refl
  Reachable-IsCached zeroed (with_outputs outputs tx r) = inl refl
  Reachable-IsCached zeroed (locked t tx r) = inl refl
  Reachable-IsCached zeroed (assigned in_place b tx r) = inl refl
  Reachable-IsCached zeroed (hashed tx r) = get_hash-IsCached tx (Reachable-IsCached zeroed r)

  -- If the memory of new objects is zero, then however a transaction was made by its constructors and
  -- changed by its setters, its assignment and GetHash, GetHash returns the double SHA-256 of what
  -- Serialize writes of it now, and changes nothing that is written.
  pub get_hash-Reachable :
      (tx : Transaction)
      → memory ≡ null_hash
      → Reachable double_sha256 memory tx
      → ((get_hash double_sha256 tx).0 ≡ double_sha256 (serialize tx))
        × (serialize (get_hash double_sha256 tx).1 ≡ serialize tx)
  unfolding get_hash serialize
  get_hash-Reachable tx zeroed r = elim (Bool-cases (bytes_eq tx.hash_cache null_hash)) [
    | inl e ↦ (rw (get_hash, e) refl, rw (get_hash, e) refl)
    | inr e ↦ (
      rw (get_hash, e)
          (elim (Reachable-IsCached zeroed r) [
            | inl null ↦ absurd (differs tx e null)
            | inr kept ↦ kept
          ]),
      rw (get_hash, e) refl,
    )
  ]
    where
      differs :
          (tx : Transaction)
          → bytes_eq tx.hash_cache null_hash ≡ false
          → ¬ (tx.hash_cache ≡ null_hash)
      differs tx e null = let same = (bytes_eq_iff tx.hash_cache null_hash).1 null in cc
