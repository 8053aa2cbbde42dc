-- ===== src/BlockIndex/Work.antt =====
-- BlockIndexWorkComparator is a strict total order on the blocks of an arena.
use btcdemo.Prelude.{ℕ, ◌<◌, ◌≡◌, ◌≢◌, true, false, ◌⊎◌, arith}
use btcdemo.BlockIndex.{BlockIndex, work_less}

module _ (a : BlockIndex) (pa : ℕ) (b : BlockIndex) (pb : ℕ) where
  -- More work comes later, then an earlier sequence number, then a lower address.
  abbrev pub Precedes : Type 0
  Precedes =
      (a.chain_work < b.chain_work)
      ⊎ ((a.chain_work ≡ b.chain_work)
          × ((b.sequence_id < a.sequence_id) ⊎ ((a.sequence_id ≡ b.sequence_id) × (pb < pa))))

  pub work_less-Precedes : work_less a pa b pb ≡ true → Precedes
  unfolding work_less
  work_less-Precedes e = ground arith

  pub Precedes-work_less : Precedes → work_less a pa b pb ≡ true
  unfolding work_less
  Precedes-work_less p = ground arith

Precedes_trans :
    (a : BlockIndex) (pa : ℕ) (b : BlockIndex) (pb : ℕ) (c : BlockIndex) (pc : ℕ)
    → Precedes a pa b pb
    → Precedes b pb c pc
    → Precedes a pa c pc
Precedes_trans a pa b pb c pc p q = ground arith

-- BlockIndexWorkComparator is a strict order that tells every two objects apart: no block is less
-- than itself, it is transitive, and of two blocks at different addresses one is less.
pub work_less_order :
    (a : BlockIndex) (pa : ℕ) (b : BlockIndex) (pb : ℕ) (c : BlockIndex) (pc : ℕ)
    → (work_less a pa a pa ≡ false)
      × (work_less a pa b pb ≡ true → work_less b pb c pc ≡ true → work_less a pa c pc ≡ true)
      × (pa ≢ pb → (work_less a pa b pb ≡ true) ⊎ (work_less b pb a pa ≡ true))
unfolding work_less
work_less_order a pa b pb c pc = (
  ground arith,
  λ p q. Precedes-work_less a pa c pc (
      Precedes_trans a pa b pb c pc (work_less-Precedes a pa b pb p)
        (work_less-Precedes b pb c pc q)),
  λ ne. ground arith,
)
