-- ===== src/BanList/Laws.antt =====
-- What Add and Erase make of IsBanned.
use btcdemo.Prelude.{
  ℕ, ◌+◌, ◌<◌, ◌≤◌, ◌≡◌, ◌≢◌, refl, ap, ◌∙◌, false, ◌||◌, [], ◌∷◌, none, some, ltb, Bool-cases,
  Option-cases, inl, inr, arith, dec_lt, lt→ltb, ltb-false,
}
use btcdemo.Prelude.Hash.{bytes_eq, bytes_eq_iff, bytes_eq_refl}
use btcdemo.Prelude.Bytes.{All}
use btcdemo.BanList.{
  BanReason, BanEntry, BanMap, Text, default_misbehaving_bantime, find, subscript, assign,
  add_entry, add, remove, is_found, erase, keep, sweep_banned, is_banned,
}

other_text : (a b : Text) → a ≢ b → bytes_eq a b ≡ false
other_text a b ne = elim (Bool-cases (bytes_eq a b)) [
  | inl e ↦ absurd (ne ((bytes_eq_iff a b).0 e))
  | inr e ↦ e
]

module _ (name : Text) (entry : BanEntry) where
  find-assign : (bans : BanMap) → find (assign bans name entry) name ≡ some entry
  unfolding find assign
  find-assign [] = rw (bytes_eq_refl name) refl
  find-assign (e ∷ es) = elim (Bool-cases (bytes_eq e.0 name)) [
    | inl f ↦ rw (assign, f, find, f) refl
    | inr f ↦ rw (assign, f, find, f) (find-assign es)
  ]

  find-assign_other :
      (bans : BanMap) (other : Text)
      → name ≢ other
      → find (assign bans name entry) other ≡ find bans other
  unfolding find assign
  find-assign_other [] other ne = rw (other_text name other ne) refl
  find-assign_other (e ∷ es) other ne = elim (Bool-cases (bytes_eq e.0 name)) [
    | inl f ↦
        let miss : bytes_eq e.0 other ≡ false =
          ap (λ (t : Text). bytes_eq t other) ((bytes_eq_iff e.0 name).0 f)
          ∙ other_text name other ne in
        rw (assign, f, find, miss) refl
    | inr f ↦ elim (Bool-cases (bytes_eq e.0 other)) [
      | inl g ↦ rw (assign, f, find, g) refl
      | inr g ↦ rw (assign, f, find, g) (find-assign_other es other ne)
    ]
  ]

find-remove : (name : Text) (bans : BanMap) → find (remove name bans) name ≡ none
unfolding find remove
find-remove name [] = refl
find-remove name (e ∷ es) = elim (Bool-cases (bytes_eq e.0 name)) [
  | inl f ↦ rw (remove, f) (find-remove name es)
  | inr f ↦ rw (remove, f, find, f) (find-remove name es)
]

find-remove_other :
    (name other : Text) (bans : BanMap)
    → name ≢ other
    → find (remove name bans) other ≡ find bans other
unfolding find remove
find-remove_other name other [] ne = refl
find-remove_other name other (e ∷ es) ne = elim (Bool-cases (bytes_eq e.0 name)) [
  | inl f ↦
      let miss : bytes_eq e.0 other ≡ false =
        ap (λ (t : Text). bytes_eq t other) ((bytes_eq_iff e.0 name).0 f)
        ∙ other_text name other ne in
      rw (remove, f, find, miss) (find-remove_other name other es ne)
  | inr f ↦ elim (Bool-cases (bytes_eq e.0 other)) [
    | inl g ↦ rw (remove, f, find, g) refl
    | inr g ↦ rw (remove, f, find, g) (find-remove_other name other es ne)
  ]
]

-- Erase lifts the ban of its subnet and of no other.
pub erase-is_banned :
    (name other : Text) (now : ℕ) (bans : BanMap)
    → (is_banned name now (erase name bans).1 ≡ false)
      × (name ≢ other → is_banned other now (erase name bans).1 ≡ is_banned other now bans)
unfolding erase is_banned is_found
erase-is_banned name other now bans = elim (Option-cases (find bans name)) [
  | inl f ↦ (rw (erase, f, is_banned, f) refl, λ ne. rw (erase, f) refl)
  | inr (e, f) ↦ (
    rw (erase, f, is_banned, find-remove name bans) refl,
    λ ne. rw (erase, f, is_banned, find-remove_other name other bans ne) refl,
  )
]

module _ (name : Text) (reason : BanReason) (created now : ℕ) (bans : BanMap) where
  abbrev until : ℕ
  until = now + default_misbehaving_bantime

  abbrev entry : BanEntry
  entry = record { create_time = created; ban_reason = reason; ban_until = until }

  abbrev touched : BanMap
  touched = assign bans name (subscript bans name)

  was_banned : (later : ℕ) → is_banned name later bans ≡ ltb later (subscript bans name).ban_until
  unfolding is_banned subscript
  was_banned later = elim (Option-cases (find bans name)) [
    | inl e ↦ rw (is_banned, e, subscript) (ground arith)
    | inr (b, e) ↦ rw (is_banned, e, subscript) refl
  ]

  lengthens :
      (subscript bans name).ban_until < until
      → (add name reason created now bans).1 ≡ assign touched name entry
  unfolding add add_entry
  lengthens h = rw (add, add_entry, lt→ltb (subscript bans name).ban_until until h) refl

  keeps : ¬ (subscript bans name).ban_until < until → (add name reason created now bans).1 ≡ touched
  unfolding add add_entry
  keeps h = rw (add, add_entry, ltb-false (subscript bans name).ban_until until h) refl

  returned : (add name reason created now bans).0 ≡ ltb (subscript bans name).ban_until until
  unfolding add add_entry
  returned = elim (Bool-cases (ltb (subscript bans name).ban_until until)) [
    | inl e ↦ rw (add, add_entry, e) refl
    | inr e ↦ rw (add, add_entry, e) refl
  ]

  -- After Add a subnet is banned at a time exactly if it was already banned until a later time or the
  -- time lies within the default duration from the call on, so a ban is never shortened; no other
  -- subnet's ban changes; and Add returns whether the ban was lengthened.
  pub add-is_banned :
      (other : Text) (later : ℕ)
      → (is_banned name later (add name reason created now bans).1
          ≡ is_banned name later bans || ltb later (now + default_misbehaving_bantime))
        × (name ≢ other
            → is_banned other later (add name reason created now bans).1
              ≡ is_banned other later bans)
        × ((add name reason created now bans).0
            ≡ ltb (subscript bans name).ban_until (now + default_misbehaving_bantime))
  unfolding is_banned add add_entry
  add-is_banned other later = elim (dec_lt (subscript bans name).ban_until until) [
    | yes h ↦ (
      rw (lengthens h, is_banned, find-assign name entry touched, was_banned later) (ground arith),
      λ ne.
          rw
            (
              lengthens h,
              is_banned,
              find-assign_other name entry touched other ne,
              find-assign_other name (subscript bans name) bans other ne,
            )
            refl,
      returned,
    )
    | no h ↦ (
      rw (keeps h, is_banned, find-assign name (subscript bans name) bans, was_banned later)
          (ground arith),
      λ ne.
          rw (keeps h, is_banned, find-assign_other name (subscript bans name) bans other ne) refl,
      returned,
    )
  ]

-- SweepBanned changes nothing if no entry has expired, and is undefined if one has: erasing an entry
-- leaves the loop's iterator invalid.
pub sweep_banned_expired :
    (now : ℕ) (bans : BanMap)
    → (All (λ e. now ≤ e.1.ban_until) bans → sweep_banned now bans ≡ some bans)
      × (¬ All (λ e. now ≤ e.1.ban_until) bans → sweep_banned now bans ≡ none)
unfolding sweep_banned keep
sweep_banned_expired now [] = ((λ all. refl), λ not_all. absurd (not_all tt))
sweep_banned_expired now (e ∷ es) =
    let (defined, undefined) = sweep_banned_expired now es in
    elim (dec_lt e.1.ban_until now) [
      | yes h ↦ (
        (λ all. absurd (omega (arith, all.0))),
        λ not_all. rw (sweep_banned, lt→ltb e.1.ban_until now h) refl,
      )
      | no h ↦ (
        (λ all. rw (sweep_banned, ltb-false e.1.ban_until now h, defined all.1) refl),
        λ not_all.
            rw
              (
                sweep_banned,
                ltb-false e.1.ban_until now h,
                undefined (λ all. not_all (omega arith, all)),
              )
              refl,
      )
    ]
