-- ===== src/Hc/Table.antt =====
-- hc/table.go: the dynamic table that HPACK and QPACK share.
pub mod Numbering
pub mod Evicting
pub mod Inserting
pub mod Carrying
pub mod Lookups
pub mod Finding
pub mod Capacity
pub mod Steady
use minhq.Base.{
  ℕ, zero, suc, ◌+◌, ◌-◌, ◌≤◌, ◌≡◌, List, [], ◌∷◌, Bool, true, false, ◌&&◌, Option, none, some, ltb,
  leb, length, get_elem?, take, drop, map, ◌++◌, if◌then◌else◌,
}
use minhq.Base.Names.{Name, name_eq}
use minhq.Base.Int.{ℤ, pos, negsuc, ◌+ℤ◌, ◌-ℤ◌}
use minhq.Hc.StaticTable.{StaticEntry}

-- A `BasicDynamicEntry`. `usage_count` is the field that `qpackEncoderEntry` adds, 0 elsewhere.
-- An int is taken for unbounded: `base` counts inserts.
pub record DynamicEntry : Type 0 where
  pub name : Name
  pub value : Name
  pub base : ℕ
  pub usage_count : ℕ

-- An `Entry` that is not nil.
pub data Entry : Type 0 where
  static : StaticEntry → Entry
  dynamic : DynamicEntry → Entry

pub entry_name : Entry → Name
entry_name (Entry.static e) = e.name
entry_name (Entry.dynamic e) = e.name

pub entry_value : Entry → Name
entry_value (Entry.static e) = e.value
entry_value (Entry.dynamic e) = e.value

pub entry_base : Entry → ℕ
entry_base (Entry.static e) = e.index
entry_base (Entry.dynamic e) = e.base

abbrev pub entry_overhead : ℕ
entry_overhead = 32

unfoldable pub size : DynamicEntry → ℕ
size e = entry_overhead + (length e.name + length e.value)

-- `BasicDynamicEntry.Index`: relative to a base, negative behind it.
unfoldable pub index_from : ℤ → DynamicEntry → ℤ
index_from base e = base -ℤ pos e.base

-- `tableCommon`, with the newest entry first.
pub record TableCommon : Type 0 where
  pub dynamic : List DynamicEntry
  pub capacity : ℕ
  pub used : ℕ
  pub base : ℕ

at_index : List DynamicEntry → ℤ → Option DynamicEntry
at_index entries (pos i) = get_elem? entries i
at_index entries (negsuc i) = none

from_delta : TableCommon → ℤ → ℤ → Option DynamicEntry
from_delta t i (pos delta) = at_index t.dynamic (i +ℤ pos delta)
from_delta t i (negsuc delta) = none

unfoldable pub get_dynamic : TableCommon → ℤ → ℤ → Option DynamicEntry
unfolding at_index from_delta ◌+ℤ◌ ◌-ℤ◌
get_dynamic t i base = from_delta t i (pos t.base -ℤ base)

-- An `evictionCheck` may change a state of its own; nil is `no_check`.
abbrev pub EvictionCheck : Type 0 → Type 0
EvictionCheck S = S → DynamicEntry → S × Bool

abbrev pub no_check : EvictionCheck (Unit {0})
no_check s e = (s, true)

module _ {S : Type 0} (can_evict : EvictionCheck S) where
  -- The loop of `evictTo` over the number of entries left; `none` when an entry has to stay.
  pub evict_loop : List DynamicEntry → ℕ → ℕ → ℕ → S → S × Option (ℕ × ℕ)
  evict_loop entries reduced zero used s = (s, some (0, used))
  evict_loop entries reduced (suc l) used s = elim (ltb reduced used) [
    | false ↦ (s, some (suc l, used))
    | true ↦ elim (get_elem? entries l) [
      | none ↦ (s, none)
      | some e ↦
          let (s', allowed) = can_evict s e in
          elim allowed [
            | false ↦ (s', none)
            | true ↦ evict_loop entries reduced l (used - size e) s'
          ]
    ]
  ]

  cut : TableCommon → S × Option (ℕ × ℕ) → (TableCommon × S) × Bool
  cut t (s, none) = ((t, s), false)
  cut t (s, some (l, used)) = ((record t { dynamic = take l t.dynamic; used = used }, s), true)

  pub evict_to : ℕ → TableCommon → S → (TableCommon × S) × Bool
  unfolding cut
  evict_to reduced t s = cut t (evict_loop t.dynamic reduced (length t.dynamic) t.used s)

  clear : (TableCommon × S) × Bool → (TableCommon × S) × Bool
  clear ((t, s), true) = ((record t { dynamic = []; used = 0 }, s), false)
  clear ((t, s), false) = ((t, s), false)

  push_front : DynamicEntry → (TableCommon × S) × Bool → (TableCommon × S) × Bool
  push_front e ((t, s), false) = ((t, s), false)
  push_front e ((t, s), true) =
      let e' = record e { base = t.base + 1 } in
      ((record t { dynamic = e' ∷ t.dynamic; base = t.base + 1; used = t.used + size e' }, s), true)

  pub insert : DynamicEntry → TableCommon → S → (TableCommon × S) × Bool
  unfolding clear push_front
  insert e t s =
      if ltb t.capacity (size e)
      then clear (evict_to 0 t s)
      else push_front e (evict_to (t.capacity - size e) t s)

-- `SetCapacity` of `tableCommon`.
pub set_capacity : ℕ → TableCommon → TableCommon
set_capacity capacity t = record ((evict_to no_check capacity t tt).0.0) { capacity = capacity }

-- The two loops of `lookupImpl`, from a first name match: a full match ends it.
or_first : Option Entry → Entry → Option Entry
or_first none e = some e
or_first (some m) e = some m

pub scan : Name → Name → Option Entry → List Entry → Option Entry × Option Entry
scan name value name_match [] = (none, name_match)
scan name value name_match (e ∷ rest) =
    let here = name_eq (entry_name e) name in
    let more = scan name value (if here then or_first name_match e else name_match) rest in
    if here && name_eq (entry_value e) value then (some e, some e) else more

-- The entries of `dynamic[min:max]`; the callers keep `min ≤ max ≤ len(dynamic)`.
abbrev pub slice : ℕ → ℕ → List DynamicEntry → List DynamicEntry
slice lo hi entries = drop lo (take hi entries)

-- The static table comes first, then the slice of the dynamic table.
pub lookup_impl : TableCommon → List StaticEntry → Name → Name → ℕ → ℕ → Option Entry × Option Entry
unfolding or_first
lookup_impl t static_table name value dynamic_min dynamic_max =
    scan name value none
      (map Entry.static static_table ++ map Entry.dynamic (slice dynamic_min dynamic_max t.dynamic))
