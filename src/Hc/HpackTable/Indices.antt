-- ===== src/Hc/HpackTable/Indices.antt =====
-- Every entry of the HPACK table is found by its index.
use minhq.Base.{
  ℕ, zero, suc, ◌+◌, ◌-◌, ◌≤◌, ◌<◌, ◌≡◌, refl, ap, List, [], ◌∷◌, some, Bool, true, false, ◌&&◌,
  ◌==◌, ltb, leb, length, get_elem?, arith,
}
use minhq.Base.Int.{pos, ◌-ℤ◌}
use minhq.Hc.StaticTable.{StaticEntry, hpack_static_table}
use minhq.Hc.Table.{Entry, TableCommon, index_from}
use minhq.Hc.Table.Finding.{StandsIn}
use minhq.Hc.Table.Capacity.{get_elem?-below}
use minhq.Hc.Table.Numbering.{Numbered, delta, get_elem?-base, get_dynamic-index_from}
use minhq.Hc.HpackTable.{hpack_get, hpack_get_static, hpack_index, static_at, dynamic_at}

indexed : ℕ → List StaticEntry → Bool
indexed i [] = true
indexed i (e ∷ es) = e.index == i && indexed (suc i) es

static-indexed : indexed 1 hpack_static_table ≡ true
unfolding indexed
static-indexed = refl

indexed→ :
    (i : ℕ) (es : List StaticEntry) (k : ℕ) (e : StaticEntry)
    → indexed i es ≡ true
    → get_elem? es k ≡ some e
    → (e.index ≡ i + k) × (k < length es)
unfolding indexed
indexed→ i [] k e h at = cc
indexed→ i (x ∷ es) zero e h at = ground arith
indexed→ i (x ∷ es) (suc k) e h at =
    let rest : indexed (suc i) es ≡ true = ground arith in
    let (same, below) = indexed→ (suc i) es k e rest at in
    (omega (arith, same), omega (arith, below))

-- Where an entry stands, in the static table or in the dynamic one.
abbrev pub Stands : TableCommon → Entry → Type 0
Stands t e = StandsIn hpack_static_table t.dynamic e

offset : (base b : ℕ) → b ≤ base → pos (62 + (base - b)) -ℤ pos 61 -ℤ pos 1 ≡ pos base -ℤ pos b
offset base b h =
    rw
      (
        delta (62 + (base - b)) 61 (omega arith),
        delta (62 + (base - b) - 61) 1 (omega arith),
        delta base b h,
      )
      (ap pos (omega arith))

-- In the HPACK table, `Get` of the `Index` of an entry that stands in the static or the dynamic
-- table is the entry, when the dynamic entries are numbered without gaps.
pub hpack_get-hpack_index :
    (t : TableCommon) (e : Entry)
    → Numbered t.base t.dynamic
    → Stands t e
    → hpack_get (hpack_index e t) t ≡ some e
unfolding hpack_get hpack_get_static hpack_index static_at dynamic_at index_from
hpack_get-hpack_index t (Entry.static e) num (k, at) =
    let (same, below) = indexed→ 1 hpack_static_table k e static-indexed at in
    let back : e.index - 1 ≡ k = omega (arith, same) in
    let low : leb e.index 0 ≡ false = ground arith in
    let high : ltb 61 e.index ≡ false = ground arith in
    rw (low, hpack_get, hpack_get_static, high, back, at) refl
hpack_get-hpack_index t (Entry.dynamic e) num (k, at) =
    let (same, some_number) = get_elem?-base k t.base t.dynamic e num at in
    let i = 62 + (t.base - e.base) in
    let low : leb i 0 ≡ false = ground arith in
    let high : ltb 61 i ≡ true = ground arith in
    let index : pos i -ℤ pos 61 -ℤ pos 1 ≡ index_from (pos t.base) e =
      offset t.base e.base (omega (arith, same)) in
    let found = get_dynamic-index_from t k t.base e num at (omega arith) in
    rw (low, hpack_get, hpack_get_static, high, index, found) refl

-- The index is 1 to 61 in the static table, and goes on from there.
pub hpack_index-bounds :
    (t : TableCommon) (e : Entry)
    → Numbered t.base t.dynamic
    → Stands t e
    → (0 < hpack_index e t) × (hpack_index e t ≤ 61 + length t.dynamic)
unfolding hpack_index
hpack_index-bounds t (Entry.static e) num (k, at) =
    let (same, below) = indexed→ 1 hpack_static_table k e static-indexed at in
    (omega (arith, same), omega (arith, same, below))
hpack_index-bounds t (Entry.dynamic e) num (k, at) =
    let (same, some_number) = get_elem?-base k t.base t.dynamic e num at in
    (omega arith, omega (arith, same, get_elem?-below k t.dynamic e at))
