-- ===== src/Hc/QpackTable.antt =====
-- hc/qpacktable.go: the table of the QPACK encoder, which keeps count of the newest entries that
-- header blocks may refer to.
pub mod Steady
pub mod Referencing
pub mod Keeping
use minhq.Base.{
  ℕ, zero, suc, ◌+◌, ◌-◌, ◌≡◌, List, [], ◌∷◌, Bool, true, false, ◌&&◌, Option, none, some, ltb, leb,
  length, get_elem?, take, drop, not, if◌then◌else◌,
}
use minhq.Base.Names.{Name, name_eq}
use minhq.Hc.StaticTable.{qpack_static_table}
use minhq.Hc.Table.{DynamicEntry, Entry, TableCommon, EvictionCheck, size, insert, lookup_impl}

pub record QpackEncoderTable : Type 0 where
  pub common : TableCommon
  pub referenceable_limit : ℕ
  pub referenceable : ℕ
  pub referenceable_size : ℕ

-- The loop of `added`, down from `i` entries whose sizes add up to `updated_size`. `none` is the
-- panic on an index out of range; the size is a uint that wraps only behind it.
pub shrink : List DynamicEntry → ℕ → ℕ → ℕ → Option (ℕ × ℕ)
shrink entries limit zero updated_size =
    if ltb limit updated_size then none else some (0, updated_size)
shrink entries limit (suc i) updated_size =
    if ltb limit updated_size
    then elim (get_elem? entries i) [
      | none ↦ none
      | some e ↦ shrink entries limit i (updated_size - size e)
    ]
    else some (suc i, updated_size)

with_referenceable : QpackEncoderTable → Option (ℕ × ℕ) → Option QpackEncoderTable
with_referenceable qt none = none
with_referenceable qt (some (i, updated_size)) =
    some (record qt { referenceable = i; referenceable_size = updated_size })

pub added : DynamicEntry → QpackEncoderTable → Option QpackEncoderTable
unfolding with_referenceable
added qe qt = with_referenceable qt (
    shrink qt.common.dynamic qt.referenceable_limit (qt.referenceable + 1)
      (qt.referenceable_size + size qe))

-- `removed` on the two counters: the entry's index is an int, and is never negative here.
pub removed : ℕ → DynamicEntry → ℕ × ℕ → ℕ × ℕ
removed base qe (referenceable, referenceable_size) =
    if ltb (base - qe.base) referenceable
    then (referenceable - 1, referenceable_size - size qe)
    else (referenceable, referenceable_size)

-- `qpackEncoderEvictWrapper`: it changes the two counters before it is known whether the eviction
-- goes through.
pub evict_wrapper : {S : Type 0} → EvictionCheck S → ℕ → EvictionCheck (S × (ℕ × ℕ))
evict_wrapper wrapped base (s, counters) qe =
    let (s', allowed) = wrapped s qe in
    if not allowed
    then ((s', counters), false)
    else if ltb 0 qe.usage_count
    then ((s', counters), false)
    else ((s', removed base qe counters), true)

-- `Insert`: the table behind it, and whether the entry went in; `none` is a panic of `added`.
after_insert :
    {S : Type 0}
    → DynamicEntry
    → QpackEncoderTable
    → (TableCommon × (S × (ℕ × ℕ))) × Bool
    → Option ((QpackEncoderTable × S) × Bool)
after_insert e qt ((t, (s, (r, z))), inserted) =
    let qt' = record qt { common = t; referenceable = r; referenceable_size = z } in
    if inserted
    then elim (added e qt') [ none ↦ none | some qt'' ↦ some ((qt'', s), true) ]
    else some ((qt', s), false)

pub insert_entry :
    {S : Type 0}
    → EvictionCheck S
    → Name
    → Name
    → QpackEncoderTable
    → S
    → Option ((QpackEncoderTable × S) × Bool)
unfolding after_insert
insert_entry evict name value qt s =
    let entry : DynamicEntry = record { name = name; value = value; base = 0; usage_count = 0 } in
    after_insert entry qt (
      insert (evict_wrapper evict qt.common.base) entry qt.common
        (s, (qt.referenceable, qt.referenceable_size)))

pub lookup_referenceable : Name → Name → ℕ → QpackEncoderTable → Option Entry × Option Entry
lookup_referenceable name value max_base qt =
    let start = qt.common.base - max_base in
    if leb qt.referenceable start
    then lookup_impl qt.common qpack_static_table name value 0 0
    else lookup_impl qt.common qpack_static_table name value start qt.referenceable

-- The loop of `LookupBlocked` over the entries that it looks at.
any_match : Name → Name → List DynamicEntry → Bool
any_match name value [] = false
any_match name value (e ∷ es) =
    if name_eq e.name name && name_eq e.value value then true else any_match name value es

pub lookup_blocked : Name → Name → ℕ → QpackEncoderTable → Bool
unfolding any_match
lookup_blocked name value max_base qt =
    let end = qt.common.base - max_base in
    if leb qt.common.base max_base
    then false
    else any_match name value
        (take (if ltb qt.referenceable end then qt.referenceable else end) qt.common.dynamic)

-- The loop of `LookupExtra` from a value of `nameMatch`.
extra_match :
    Name
    → Name
    → Option DynamicEntry
    → List DynamicEntry
    → Option DynamicEntry × Option DynamicEntry
extra_match name value name_match [] = (none, name_match)
extra_match name value name_match (e ∷ es) =
    let next : Option DynamicEntry = elim name_match [ none ↦ none | some m ↦ some e ] in
    let kept = extra_match name value name_match es in
    let changed = extra_match name value next es in
    if name_eq e.name name
    then (if name_eq e.value value then (some e, some e) else changed)
    else kept

pub lookup_extra : Name → Name → QpackEncoderTable → Option DynamicEntry × Option DynamicEntry
unfolding extra_match
lookup_extra name value qt = extra_match name value none (drop qt.referenceable qt.common.dynamic)

-- The loop of `SetReferenceableLimit`, whose remaining space never changes.
count_referenceable : List DynamicEntry → ℕ → ℕ → ℕ → ℕ × ℕ
count_referenceable [] remaining_space n z = (n, z)
count_referenceable (e ∷ es) remaining_space n z =
    let rest = count_referenceable es remaining_space (n + 1) (z + size e) in
    if ltb (size e) remaining_space then rest else (n, z)

pub set_referenceable_limit : ℕ → QpackEncoderTable → QpackEncoderTable
unfolding count_referenceable
set_referenceable_limit limit qt =
    let limit' = if ltb qt.common.capacity limit then qt.common.capacity else limit in
    let (n, z) = count_referenceable qt.common.dynamic limit' 0 0 in
    record qt { referenceable_limit = limit'; referenceable = n; referenceable_size = z }

-- `none` is the panic behind an insertion.
pub set_encoder_capacity : ℕ → QpackEncoderTable → Option QpackEncoderTable
set_encoder_capacity c qt =
    let qt' : QpackEncoderTable = record qt { common = record (qt.common) { capacity = c } } in
    if ltb 0 qt.common.base
    then none
    else if ltb c qt.referenceable_limit
    then some (set_referenceable_limit qt.referenceable_limit qt')
    else some qt'

pub new_qpack_encoder_table : ℕ → ℕ → Option QpackEncoderTable
new_qpack_encoder_table capacity referenceable =
    let empty : QpackEncoderTable = record {
      common = record { dynamic = []; capacity = 0; used = 0; base = 0 };
      referenceable_limit = 0;
      referenceable = 0;
      referenceable_size = 0;
    } in
    elim (set_encoder_capacity capacity empty) [
      | none ↦ none
      | some qt ↦ some (set_referenceable_limit referenceable qt)
    ]
