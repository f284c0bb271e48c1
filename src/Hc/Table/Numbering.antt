-- ===== src/Hc/Table/Numbering.antt =====
-- Entries are numbered without gaps from the table's base down, so an index finds its entry.
use minhq.Base.{
  ℕ, zero, suc, ◌+◌, ◌-◌, ◌≤◌, ◌<◌, ◌≡◌, refl, List, [], ◌∷◌, some, get_elem?, take, arith,
}
use minhq.Base.Int.{ℤ, pos, negsuc, ◌+ℤ◌, ◌-ℤ◌}
use minhq.Hc.Table.{DynamicEntry, TableCommon, get_dynamic, index_from, from_delta, at_index}

-- The newest entry has the number `base`, and so on down.
abbrev pub Numbered : ℕ → List DynamicEntry → Type 0
Numbered base [] = Unit {0}
Numbered base (e ∷ es) = (e.base ≡ base) × (0 < base) × Numbered (base - 1) es

pub Numbered-take :
    (k base : ℕ) (es : List DynamicEntry) → Numbered base es → Numbered base (take k es)
Numbered-take zero base es h = tt
Numbered-take (suc k) base [] h = tt
Numbered-take (suc k) base (e ∷ es) h = (h.0, h.1, Numbered-take k (base - 1) es h.2)

pub get_elem?-base :
    (i base : ℕ) (es : List DynamicEntry) (e : DynamicEntry)
    → Numbered base es
    → get_elem? es i ≡ some e
    → (e.base + i ≡ base) × (0 < e.base)
get_elem?-base i base [] e h at = cc
get_elem?-base zero base (x ∷ es) e h at = ground arith
get_elem?-base (suc i) base (x ∷ es) e h at =
    omega (arith, get_elem?-base i (base - 1) es e h.2 at, h.1)

at_index-pos :
    (es : List DynamicEntry) (x : ℤ) (e : DynamicEntry)
    → at_index es x ≡ some e
    → (j : ℕ) × (get_elem? es j ≡ some e) × (x ≡ pos j)
unfolding at_index
at_index-pos es (pos j) e h = (j, h, refl)
at_index-pos es (negsuc j) e h = cc

from_delta-at :
    (t : TableCommon) (i d : ℤ) (e : DynamicEntry)
    → from_delta t i d ≡ some e
    → (j : ℕ) × (get_elem? t.dynamic j ≡ some e) × (i +ℤ d ≡ pos j)
unfolding from_delta
from_delta-at t i (pos d) e h = at_index-pos t.dynamic (i +ℤ pos d) e h
from_delta-at t i (negsuc d) e h = cc

place : (tb b j : ℕ) (i base : ℤ) → i +ℤ (pos tb -ℤ base) ≡ pos j → b + j ≡ tb → pos b ≡ base -ℤ i
unfolding ◌+ℤ◌ ◌-ℤ◌
place tb b j (pos i) (pos base) h e = ground arith
place tb b j (pos i) (negsuc base) h e = ground arith
place tb b j (negsuc i) (pos base) h e = ground arith
place tb b j (negsuc i) (negsuc base) h e = ground arith

-- An entry that `GetDynamic(i, base)` finds in a table whose entries are numbered without gaps has
-- the number `base - i`, for any int `i` and `base`.
pub get_dynamic-base :
    (t : TableCommon) (i base : ℤ) (e : DynamicEntry)
    → Numbered t.base t.dynamic
    → get_dynamic t i base ≡ some e
    → pos e.base ≡ base -ℤ i
unfolding get_dynamic
get_dynamic-base t i base e h at =
    let (j, found, sum) = from_delta-at t i (pos t.base -ℤ base) e at in
    place t.base e.base j i base sum (get_elem?-base j t.base t.dynamic e h found).0

pub delta : (tb base : ℕ) → base ≤ tb → pos tb -ℤ pos base ≡ pos (tb - base)
unfolding ◌-ℤ◌
delta tb base h = ground arith

back : (tb b i base : ℕ) → b + i ≡ tb → base ≤ tb → (pos base -ℤ pos b) +ℤ pos (tb - base) ≡ pos i
unfolding ◌+ℤ◌ ◌-ℤ◌
back tb b i base e h = ground arith

-- An entry's index relative to any base up to the table's, negative behind it, finds the entry
-- again with `GetDynamic` in a table whose entries are numbered without gaps.
pub get_dynamic-index_from :
    (t : TableCommon) (i base : ℕ) (e : DynamicEntry)
    → Numbered t.base t.dynamic
    → get_elem? t.dynamic i ≡ some e
    → base ≤ t.base
    → get_dynamic t (index_from (pos base) e) (pos base) ≡ some e
unfolding get_dynamic index_from from_delta at_index
get_dynamic-index_from t i base e h at le =
    let (sum, positive) = get_elem?-base i t.base t.dynamic e h at in
    rw (delta t.base base le, back t.base e.base i base sum le, from_delta, at_index) at

pos-add : (a b : ℕ) → pos a +ℤ pos b ≡ pos (a + b)
unfolding ◌+ℤ◌
pos-add a b = ground arith

-- With a base up to the table's and an index that is not negative, counted from the newest entry.
pub get_dynamic-pos :
    (t : TableCommon) (i base : ℕ)
    → base ≤ t.base
    → get_dynamic t (pos i) (pos base) ≡ get_elem? t.dynamic (i + (t.base - base))
unfolding get_dynamic from_delta at_index
get_dynamic-pos t i base h =
    rw (delta t.base base h, from_delta, pos-add i (t.base - base), at_index) refl
