-- ===== src/Hc/Table/Finding.antt =====
-- Where the entries that a lookup finds stand.
use minhq.Base.{
  ℕ, suc, zero, ◌≡◌, refl, List, [], ◌∷◌, ◌++◌, map, Bool, true, Option, none, some, inl, inr,
  Bool-cases, get_elem?, arith, ◌&&◌,
}
use minhq.Base.Names.{Name, name_eq, name_eq→eq}
use minhq.Hc.StaticTable.{StaticEntry}
use minhq.Hc.Table.{DynamicEntry, Entry, TableCommon, entry_name, entry_value, lookup_impl, slice}
use minhq.Hc.Table.Lookups.{first, same_name, same_field, lookup_impl-first, found}

-- An entry of the static table `xs` or of the entries `es`.
abbrev pub StandsIn : List StaticEntry → List DynamicEntry → Entry → Type 0
StandsIn xs es (Entry.static e) = (k : ℕ) × (get_elem? xs k ≡ some e)
StandsIn xs es (Entry.dynamic e) = (k : ℕ) × (get_elem? es k ≡ some e)

first-at :
    (test : Entry → Bool) (es : List Entry) (e : Entry)
    → first test es ≡ some e
    → (k : ℕ) × (get_elem? es k ≡ some e) × (test e ≡ true)
unfolding first
first-at test [] e h = cc
first-at test (x ∷ es) e h = elim (Bool-cases (test x)) [
  | inl t ↦ (zero, rw t at h, cc)
  | inr f ↦ let (k, at, t) = first-at test es e (rw f at h) in (suc k, at, t)
]

map-at {ℓ κ} :
    {A : Type ℓ} {B : Type κ} (g : A → B) (ys : List A) (k : ℕ) (e : B)
    → get_elem? (map g ys) k ≡ some e
    → (j : ℕ) × (b : A) × (get_elem? ys j ≡ some b) × (e ≡ g b)
map-at g [] k e at = cc
map-at g (y ∷ ys) zero e at = (zero, y, refl, cc)
map-at g (y ∷ ys) (suc k) e at = let (j, b, h, eq) = map-at g ys k e at in (suc j, b, h, eq)

joined-StandsIn :
    (xs : List StaticEntry) (es : List DynamicEntry) (e : Entry) (k : ℕ)
    → get_elem? (map Entry.static xs ++ map Entry.dynamic es) k ≡ some e
    → StandsIn xs es e
joined-StandsIn [] es e k at = let (j, b, h, eq) = map-at Entry.dynamic es k e at in rw eq (j, h)
joined-StandsIn (x ∷ xs) es (Entry.static e) zero at = (zero, cc)
joined-StandsIn (x ∷ xs) es (Entry.dynamic e) zero at = cc
joined-StandsIn (x ∷ xs) es (Entry.static e) (suc k) at =
    let (j, h) = joined-StandsIn xs es (Entry.static e) k at in (suc j, h)
joined-StandsIn (x ∷ xs) es (Entry.dynamic e) (suc k) at =
    joined-StandsIn xs es (Entry.dynamic e) k at

-- What a lookup found: an entry with the name and, for a full match, the value.
abbrev pub Matches : Name → List StaticEntry → List DynamicEntry → Option Entry → Type 0
Matches name xs es none = Unit {0}
Matches name xs es (some e) = StandsIn xs es e × (entry_name e ≡ name)

abbrev pub FullMatches : Name → Name → List StaticEntry → List DynamicEntry → Option Entry → Type 0
FullMatches name value xs es none = Unit {0}
FullMatches name value xs es (some e) =
    StandsIn xs es e × (entry_name e ≡ name) × (entry_value e ≡ value)

both : (a b : Bool) → (a && b) ≡ true → (a ≡ true) × (b ≡ true)
both a b h = ground arith

module _ (name value : Name) (xs : List StaticEntry) (es : List DynamicEntry) where
  abbrev searched : List Entry
  searched = map Entry.static xs ++ map Entry.dynamic es

  first-Matches : (m : Option Entry) → first (same_name name) searched ≡ m → Matches name xs es m
  first-Matches none h = tt
  first-Matches (some e) h =
      let (k, at, passes) = first-at (same_name name) searched e h in
      (joined-StandsIn xs es e k at, name_eq→eq _ _ passes)

  first-FullMatches :
      (m : Option Entry)
      → first (same_field name value) searched ≡ m
      → FullMatches name value xs es m
  first-FullMatches none h = tt
  first-FullMatches (some e) h =
      let (k, at, passes) = first-at (same_field name value) searched e h in
      let (same, valued) =
        both (name_eq (entry_name e) name) (name_eq (entry_value e) value) passes in
      (joined-StandsIn xs es e k at, name_eq→eq _ _ same, name_eq→eq _ _ valued)

  found-Matches :
      (m nm : Option Entry)
      → FullMatches name value xs es m
      → Matches name xs es nm
      → FullMatches name value xs es (found none m nm).0 × Matches name xs es (found none m nm).1
  found-Matches none nm full partial = (tt, partial)
  found-Matches (some e) nm (at, named, valued) partial = ((at, named, valued), (at, named))

-- What `lookupImpl` returns stands in the static table or in the slice, and has the name, and the
-- first of the two has the value as well.
pub lookup_impl-Matches :
    (t : TableCommon) (xs : List StaticEntry) (name value : Name) (lo hi : ℕ)
    → FullMatches name value xs (slice lo hi t.dynamic) (lookup_impl t xs name value lo hi).0
      × Matches name xs (slice lo hi t.dynamic) (lookup_impl t xs name value lo hi).1
lookup_impl-Matches t xs name value lo hi = rw (lookup_impl-first t xs name value lo hi) (
    found-Matches name value xs (slice lo hi t.dynamic) _ _
      (first-FullMatches name value xs (slice lo hi t.dynamic) _ refl)
      (first-Matches name value xs (slice lo hi t.dynamic) _ refl))
