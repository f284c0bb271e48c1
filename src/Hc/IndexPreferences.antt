-- ===== src/Hc/IndexPreferences.antt =====
-- hc/codec.go: which header fields an encoder puts into its table.
pub mod Preferring
use minhq.Base.{
  ℕ, ◌+◌, List, [], ◌∷◌, Bool, true, false, ◌||◌, Option, none, some, ltb, length, if◌then◌else◌,
}
use minhq.Base.Names.{Name, name_eq, codes}
use minhq.Hc.Headers.{HeaderField}

-- The map `indexPrefs`.
abbrev pub IndexPrefs : Type 0
IndexPrefs = List (Name × Bool)

pub preference : Name → IndexPrefs → Option Bool
preference name [] = none
preference name ((key, pref) ∷ prefs) =
    if name_eq key name then some pref else preference name prefs

abbrev dont_index : List Name
dont_index =
    codes ":path"
    ∷ codes "content-length"
    ∷ codes "content-range"
    ∷ codes "date"
    ∷ codes "expires"
    ∷ codes "etag"
    ∷ codes "if-modified-since"
    ∷ codes "if-range"
    ∷ codes "if-unmodified-since"
    ∷ codes "last-modified"
    ∷ codes "link"
    ∷ codes "range"
    ∷ codes "referer"
    ∷ codes "refresh"
    ∷ []

listed : Name → List Name → Bool
listed name [] = false
listed name (key ∷ keys) = name_eq key name || listed name keys

pub should_index : ℕ → IndexPrefs → HeaderField → Bool
unfolding listed
should_index capacity prefs h =
    if ltb capacity (length h.name + length h.value + 32)
    then false
    else elim (preference h.name prefs) [
      | some pref ↦ pref
      | none ↦ if listed h.name dont_index then false else true
    ]

-- The entry of the name goes, and stands in front with the new value.
pub clear_index_preference : Name → IndexPrefs → IndexPrefs
clear_index_preference name [] = []
clear_index_preference name ((key, pref) ∷ prefs) =
    let rest = clear_index_preference name prefs in
    if name_eq key name then rest else (key, pref) ∷ rest

pub set_index_preference : Name → Bool → IndexPrefs → IndexPrefs
set_index_preference name pref prefs = (name, pref) ∷ clear_index_preference name prefs
