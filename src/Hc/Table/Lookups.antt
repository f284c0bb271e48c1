-- ===== src/Hc/Table/Lookups.antt =====
-- The lookup of a header field is two independent searches for a first match.
use minhq.Base.{
  ℕ, ◌≡◌, refl, List, [], ◌∷◌, ◌++◌, map, Bool, ◌&&◌, Option, none, some, arith, if◌then◌else◌,
}
use minhq.Base.Names.{Name, name_eq}
use minhq.Hc.StaticTable.{StaticEntry}
use minhq.Hc.Table.{Entry, TableCommon, entry_name, entry_value, scan, or_first, lookup_impl, slice}

-- The first entry that passes a test.
unfoldable pub first : (Entry → Bool) → List Entry → Option Entry
first test [] = none
first test (e ∷ rest) = let more = first test rest in if test e then some e else more

abbrev pub same_name : Name → Entry → Bool
same_name name e = name_eq (entry_name e) name

abbrev pub same_field : Name → Name → Entry → Bool
same_field name value e = same_name name e && name_eq (entry_value e) value

abbrev pub or_else : Option Entry → Option Entry → Option Entry
or_else none n = n
or_else (some m) n = some m

-- A full match is both results; else the name match is the one so far or the first.
abbrev pub found : Option Entry → Option Entry → Option Entry → Option Entry × Option Entry
found name_match (some e) n = (some e, some e)
found name_match none n = (none, or_else name_match n)

scan-found :
    (name value : Name) (name_match : Option Entry) (es : List Entry)
    → scan name value name_match es
      ≡ found name_match (first (same_field name value) es) (first (same_name name) es)
unfolding scan first or_first
scan-found name value none [] = refl
scan-found name value (some m) [] = refl
scan-found name value none (e ∷ es) =
    ground (arith, scan-found name value none es, scan-found name value (some e) es)
scan-found name value (some m) (e ∷ es) = ground (arith, scan-found name value (some m) es)

-- `lookupImpl` returns the first entry with the name and the value, static entries first, as both
-- results, and without one nil and the first entry with the name.
pub lookup_impl-first :
    (t : TableCommon) (static_table : List StaticEntry) (name value : Name) (lo hi : ℕ)
    → lookup_impl t static_table name value lo hi
      ≡ found none
          (first
            (same_field name value)
            (map Entry.static static_table ++ map Entry.dynamic (slice lo hi t.dynamic)))
          (first
            (same_name name)
            (map Entry.static static_table ++ map Entry.dynamic (slice lo hi t.dynamic)))
unfolding lookup_impl
lookup_impl-first t static_table name value lo hi = scan-found name value none _
