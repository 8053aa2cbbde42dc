-- ===== src/Transaction/Amount.antt =====
-- OutputsAmount against the sum of the values.
use btcdemo.Prelude.{
  ℕ, ◌+◌, ◌^◌, ◌≤◌, ◌<◌, ◌≡◌, ap, ◌∙◌, List, [], ◌∷◌, none, some, leb, if◌then◌else◌, arith, dec_le,
}
use btcdemo.Prelude.Bytes.{All}
use btcdemo.Transaction.{
  TxOut, Transaction, max_satoshi_amount, outputs_amount_loop, outputs_amount,
}

abbrev pub total : List TxOut → ℕ
total [] = 0
total (o ∷ os) = o.value + total os

amount_loop :
    (amount : ℕ) (os : List TxOut)
    → All (λ (o : TxOut). o.value < 2 ^ 64) os
    → amount ≤ max_satoshi_amount
    → outputs_amount_loop amount os
      ≡ (if leb (amount + total os) max_satoshi_amount then some (amount + total os) else none)
unfolding outputs_amount_loop
amount_loop amount [] h le = ground arith
amount_loop amount (o ∷ os) (h, hs) le = elim (dec_le (amount + o.value) max_satoshi_amount) [
  | yes within ↦ ground (arith, amount_loop (amount + o.value) os hs within)
  | no beyond ↦ ground arith
]

-- OutputsAmount returns the sum of the values of the outputs if it is at most kMaxSatoshiAmount, and
-- throws otherwise, whatever 64-bit values they have: no wrap-around goes unnoticed.
pub outputs_amount_lem :
    (tx : Transaction)
    → All (λ (o : TxOut). o.value < 2 ^ 64) tx.outputs
    → outputs_amount tx
      ≡ (if leb (total tx.outputs) max_satoshi_amount then some (total tx.outputs) else none)
unfolding outputs_amount
outputs_amount_lem tx h =
    amount_loop 0 tx.outputs h (omega arith)
    ∙ ap (λ (t : ℕ). if leb t max_satoshi_amount then some t else none) {x = 0 + total tx.outputs}
        {y = total tx.outputs} (omega arith)
