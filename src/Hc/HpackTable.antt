-- ===== src/Hc/HpackTable.antt =====
-- hc/hpack.go: the table of HPACK, with one space of indices for static and dynamic entries.
pub mod Indices
pub mod Inserts
use minhq.Base.{ℕ, ◌+◌, ◌-◌, List, Option, none, some, ltb, leb, length, get_elem?, if◌then◌else◌}
use minhq.Base.Names.{Name}
use minhq.Base.Int.{ℤ, pos, negsuc, ◌+ℤ◌, ◌-ℤ◌}
use minhq.Hc.StaticTable.{StaticEntry, hpack_static_table}
use minhq.Hc.Table.{DynamicEntry, Entry, TableCommon, no_check, insert, get_dynamic, lookup_impl}

abbrev static_length : ℕ
static_length = length hpack_static_table

-- `hpackEntry.Index`: 0 for an entry that the base does not reach.
pub hpack_entry_index : ℕ → DynamicEntry → ℕ
hpack_entry_index base e = if ltb base e.base then 0 else static_length + 1 + (base - e.base)

-- The entry is returned whether or not it went in.
pub hpack_insert : Name → Name → TableCommon → TableCommon × DynamicEntry
hpack_insert name value t =
    let entry : DynamicEntry = record { name = name; value = value; base = 0; usage_count = 0 } in
    let ((t', s), inserted) = insert no_check entry t tt in
    (t', if inserted then record entry { base = t'.base } else entry)

static_at : Option StaticEntry → Option Entry
static_at none = none
static_at (some e) = some (Entry.static e)

dynamic_at : Option DynamicEntry → Option Entry
dynamic_at none = none
dynamic_at (some e) = some (Entry.dynamic e)

-- The index starts at 1.
pub hpack_get_static : ℕ → Option Entry
unfolding static_at
hpack_get_static i =
    if leb i 0
    then none
    else if ltb static_length i
    then none
    else static_at (get_elem? hpack_static_table (i - 1))

-- An index that is not positive finds nothing.
pub hpack_get : ℕ → TableCommon → Option Entry
unfolding dynamic_at
hpack_get i t = if leb i 0 then none else elim (hpack_get_static i) [
  | some e ↦ some e
  | none ↦ dynamic_at (get_dynamic t (pos i -ℤ pos static_length -ℤ pos 1) (pos t.base))
]

pub hpack_lookup : Name → Name → TableCommon → Option Entry × Option Entry
hpack_lookup name value t = lookup_impl t hpack_static_table name value 0 (length t.dynamic)

-- A dynamic entry of the table is numbered no higher than the base.
pub hpack_index : Entry → TableCommon → ℕ
hpack_index (Entry.static e) t = e.index
hpack_index (Entry.dynamic e) t = static_length + 1 + (t.base - e.base)
