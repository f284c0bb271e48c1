-- ===== src/Hc/IndexPreferences/Preferring.antt =====
-- What the calls on index preferences change.
use minhq.Base.{
  ℕ, ◌+◌, ◌≤◌, ◌≡◌, refl, sym, inl, inr, [], ◌∷◌, Bool, false, none, ltb, length, Bool-cases,
  le→ltb_false, if◌then◌else◌,
}
use minhq.Base.Names.{Name, name_eq, name_eq_iff}
use minhq.Hc.Headers.{HeaderField}
use minhq.Hc.IndexPreferences.{
  IndexPrefs, preference, should_index, clear_index_preference, set_index_preference,
}

differs : (x y : Name) → name_eq y x ≡ false → name_eq x y ≡ false
differs x y h = elim (Bool-cases (name_eq x y)) [
  | inl same ↦ cc ((name_eq_iff y x).1 (sym ((name_eq_iff x y).0 same)))
  | inr apart ↦ apart
]

preference-clear :
    (name other : Name) (prefs : IndexPrefs)
    → preference other (clear_index_preference name prefs)
      ≡ (if name_eq name other then none else preference other prefs)
unfolding preference clear_index_preference
preference-clear name other [] = elim (Bool-cases (name_eq name other)) [
  | inl same ↦ rw same refl
  | inr apart ↦ rw apart refl
]
preference-clear name other ((key, pref) ∷ prefs) = elim (Bool-cases (name_eq key name)) [
  | inl same ↦
      let is : key ≡ name = (name_eq_iff key name).0 same in
      let rest = preference-clear name other prefs in
      elim (Bool-cases (name_eq name other)) [
        | inl here ↦ rw (same, clear_index_preference, here) (rw here at rest)
        | inr gone ↦ rw (same, clear_index_preference, gone, is, gone) (rw gone at rest)
      ]
  | inr apart ↦ elim (Bool-cases (name_eq key other)) [
    | inl here ↦
        let is : key ≡ other = (name_eq_iff key other).0 here in
        rw (apart, clear_index_preference, here, preference, differs name other (rw is at apart))
          refl
    | inr gone ↦
        rw (apart, clear_index_preference, gone, preference) (preference-clear name other prefs)
  ]
]

-- After `SetIndexPreference`, `shouldIndex` of a field that fits in the table says what was set if
-- the field has that name, and what it said before if it has another.
pub should_index-set_index_preference :
    (capacity : ℕ) (name : Name) (pref : Bool) (prefs : IndexPrefs) (h : HeaderField)
    → length h.name + length h.value + 32 ≤ capacity
    → should_index capacity (set_index_preference name pref prefs) h
      ≡ (if name_eq name h.name then pref else should_index capacity prefs h)
unfolding should_index set_index_preference preference
should_index-set_index_preference capacity name pref prefs h fits =
    let room : ltb capacity (length h.name + length h.value + 32) ≡ false = le→ltb_false _ _ fits in
    let cleared = preference-clear name h.name prefs in
    elim (Bool-cases (name_eq name h.name)) [
      | inl same ↦ rw (room, same, should_index) refl
      | inr apart ↦ rw (room, apart, should_index) (rw (rw apart at cleared) refl)
    ]
