-- ===== src/Node/Behavior.antt =====
-- Misbehavior::Misbehaving of network/src/node.cpp, over a history of reports.
use btcdemo.Prelude.{ℕ, ◌+◌, ◌^◌, ◌<◌, ◌≡◌, ap, ◌∙◌, List, [], ◌∷◌, leb, arith}
use btcdemo.Node.{Misbehavior, misbehaving, default_banscore_threshold}

-- The reports in their order.
unfoldable pub report : List ℕ → Misbehavior → Misbehavior
report [] m = m
report (howmuch ∷ more) m = report more (misbehaving howmuch m)

abbrev pub total : List ℕ → ℕ
total [] = 0
total (howmuch ∷ more) = howmuch + total more

misbehaving-score :
    (howmuch : ℕ) (m : Misbehavior)
    → m.score + howmuch < 2 ^ 31
    → (misbehaving howmuch m).score ≡ m.score + howmuch
unfolding misbehaving
misbehaving-score howmuch m fits = ground arith

-- Once it should be banned it stays so; else the report that reaches the threshold decides.
misbehaving-should_ban :
    (howmuch : ℕ) (m : Misbehavior)
    → m.score + howmuch < 2 ^ 31
    → m.should_ban ≡ leb default_banscore_threshold m.score
    → (misbehaving howmuch m).should_ban ≡ leb default_banscore_threshold (m.score + howmuch)
unfolding misbehaving
misbehaving-should_ban howmuch m fits known = ground arith

-- A peer should be banned exactly if the reports on it add up to the threshold of 100 or more,
-- however they are split, and the score is their sum, if that fits an int.
pub report_lem :
    (amounts : List ℕ) (m : Misbehavior)
    → m.score + total amounts < 2 ^ 31
    → m.should_ban ≡ leb default_banscore_threshold m.score
    → ((report amounts m).score ≡ m.score + total amounts)
      × ((report amounts m).should_ban ≡ leb default_banscore_threshold (m.score + total amounts))
unfolding report
report_lem [] m fits known =
    (omega arith, known ∙ ap (leb default_banscore_threshold) (add_zero m.score))
  where
    add_zero : (n : ℕ) → n ≡ n + 0
    add_zero n = omega arith
report_lem (howmuch ∷ more) m fits known =
    let score = misbehaving-score howmuch m (omega (arith, fits)) in
    let banned = misbehaving-should_ban howmuch m (omega (arith, fits)) known in
    let (rest_score, rest_banned) =
      report_lem more (misbehaving howmuch m) (omega (arith, fits, score)) (rw score banned) in
    let sum = regroup score in
    (rest_score ∙ sum, rest_banned ∙ ap (leb default_banscore_threshold) sum)
  where
    regroup :
        (misbehaving howmuch m).score ≡ m.score + howmuch
        → (misbehaving howmuch m).score + total more ≡ m.score + (howmuch + total more)
    regroup e = omega (arith, e)
