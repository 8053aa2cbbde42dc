-- ===== src/BanList/Runs.antt =====
-- Two texts of one byte each stand for two subnets.
use btcdemo.Prelude.{◌+◌, ◌≡◌, ◌≢◌, refl, true, ◌||◌, [], ◌∷◌, ltb}
use btcdemo.BanList.{
  Text, BanMap, default_misbehaving_bantime, node_misbehaving, manually_added, find, subscript, add,
  is_banned,
}
use btcdemo.BanList.Laws.{add-is_banned}

abbrev one : Text
one = 1 ∷ []

abbrev two : Text
two = 2 ∷ []

abbrev bans : BanMap
bans = (1 ∷ [], record { create_time = 5; ban_reason = node_misbehaving; ban_until = 100 }) ∷ []

add-is_banned_example :
    (is_banned (2 ∷ []) 70 (add (2 ∷ []) manually_added 50 50 bans).1
      ≡ is_banned (2 ∷ []) 70 bans || ltb 70 (50 + default_misbehaving_bantime))
    × (two ≢ one
        → is_banned (1 ∷ []) 70 (add (2 ∷ []) manually_added 50 50 bans).1
          ≡ is_banned (1 ∷ []) 70 bans)
    × ((add (2 ∷ []) manually_added 50 50 bans).0
        ≡ ltb (subscript bans (2 ∷ [])).ban_until (50 + default_misbehaving_bantime))
add-is_banned_example = add-is_banned (2 ∷ []) manually_added 50 50 bans (1 ∷ []) 70

banned_before : is_banned (1 ∷ []) 70 bans ≡ true
unfolding is_banned find
banned_before = refl
