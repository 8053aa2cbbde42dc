-- ===== src/BanList.antt =====
-- class BanList of network/include/banlist.h and network/src/banlist.cpp.
-- The protobuf map is a list of entries under the texts of their subnets; a text is a list of
-- bytes and is an argument here. The readings of the clock are arguments as well; they and the times
-- in the entries are not negative. `none` is undefined behaviour.
pub mod Laws
mod Runs
use btcdemo.Prelude.{
  ℕ, zero, suc, ◌+◌, ◌*◌, Bool, true, false, not, ◌||◌, List, [], ◌∷◌, ◌++◌, length, Option, none,
  some, ltb, leb, ◌==◌, if◌then◌else◌,
}
use btcdemo.Prelude.Hash.{bytes_eq}

pub data BanReason : Type 0 where
  unknown node_misbehaving manually_added : BanReason

pub record BanEntry : Type 0 where
  pub create_time : ℕ
  pub ban_reason : BanReason
  pub ban_until : ℕ

abbrev pub Text : Type 0
Text = List ℕ

abbrev pub BanMap : Type 0
BanMap = List (Text × BanEntry)

-- kDefaultMisbehavingBantime
abbrev pub default_misbehaving_bantime : ℕ
default_misbehaving_bantime = 60 * 60 * 24

abbrev default_entry : BanEntry
default_entry = record { create_time = 0; ban_reason = unknown; ban_until = 0 }

unfoldable pub find : BanMap → Text → Option BanEntry
find [] name = none
find (entry ∷ entries) name = if bytes_eq entry.0 name then some entry.1 else find entries name

-- `(*pmap)[name]`: a missing entry is made with default values.
unfoldable pub subscript : BanMap → Text → BanEntry
subscript bans name = elim (find bans name) [ none ↦ default_entry | some entry ↦ entry ]

-- `(*pmap)[name] = entry`
unfoldable pub assign : BanMap → Text → BanEntry → BanMap
assign [] name entry = (name, entry) ∷ []
assign (e ∷ es) name entry =
    if bytes_eq e.0 name then (e.0, entry) ∷ es else e ∷ assign es name entry

-- Add_; a lookup of a missing name leaves the default entry in the map.
unfoldable pub add_entry : Text → BanEntry → BanMap → Bool × BanMap
add_entry name entry bans =
    let touched = assign bans name (subscript bans name) in
    if ltb (subscript bans name).ban_until entry.ban_until
    then (true, assign touched name entry)
    else (false, touched)

-- The clock is read twice.
unfoldable pub add : Text → BanReason → ℕ → ℕ → BanMap → Bool × BanMap
add name reason created now bans =
    add_entry name
      (record {
        create_time = created;
        ban_reason = reason;
        ban_until = now + default_misbehaving_bantime;
      })
      bans

unfoldable pub remove : Text → BanMap → BanMap
remove name [] = []
remove name (e ∷ es) = if bytes_eq e.0 name then remove name es else e ∷ remove name es

is_found : Option BanEntry → Bool
is_found none = false
is_found (some entry) = true

unfoldable pub erase : Text → BanMap → Bool × BanMap
unfolding is_found
erase name bans = if is_found (find bans name) then (true, remove name bans) else (false, bans)

unfoldable pub clear : BanMap → BanMap
clear bans = []

unfoldable pub size : BanMap → ℕ
size bans = length bans

keep : Text × BanEntry → Option BanMap → Option BanMap
keep e none = none
keep e (some es) = some (e ∷ es)

-- The loop goes on from the entry that it has just erased, which is undefined.
unfoldable pub sweep_banned : ℕ → BanMap → Option BanMap
unfolding keep
sweep_banned now [] = some []
sweep_banned now (e ∷ es) =
    let rest = keep e (sweep_banned now es) in if ltb e.1.ban_until now then none else rest

unfoldable pub is_banned : Text → ℕ → BanMap → Bool
is_banned name now bans = elim (find bans name) [
  | none ↦ false
  | some entry ↦ ltb now entry.ban_until
]
