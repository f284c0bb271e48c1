-- ===== src/Hc/QpackDecoder.antt =====
-- hc/qpackdecoder.go: `QpackDecoder`, over the table of hc/qpacktable.go that it reads updates into.
pub mod HeaderBlocks
use minhq.Base.{
  ℕ, zero, suc, ◌+◌, ◌-◌, ◌*◌, ◌^◌, List, [], ◌∷◌, ◌++◌, Bool, true, false, ◌&&◌, Option, none,
  some, Error, Result, ok, err, ltb, leb, ◌==◌, length, get_elem?, if◌then◌else◌,
}
use minhq.Base.Int.{ℤ, pos, negsuc, ◌+ℤ◌, ◌-ℤ◌}
use minhq.Base.Names.{Name}
use minhq.Io.BitReader.{BitReader, Reads, Source, ◌>>=◌, pure, fail, read_bit, new_bit_reader}
use minhq.Hc.Integers.{read_int, read_index}
use minhq.Hc.Strings.{read_string}
use minhq.Hc.Headers.{HeaderField}
use minhq.Hc.StaticTable.{StaticEntry, qpack_static_table}
use minhq.Hc.Table.{
  DynamicEntry, Entry, TableCommon, no_check, entry_overhead, entry_name, entry_value, get_dynamic,
  insert, set_capacity,
}
use minhq.Hc.LargestReference.{decode_largest_base}
use minhq.Hc.HpackDecoder.{Decodes, decoding, branching}

-- `qpackTableCommon.GetStatic`, with the index from 0.
pub qpack_get_static : ℕ → Option Entry
qpack_get_static i = elim (get_elem? qpack_static_table i) [
  | none ↦ none
  | some e ↦ some (Entry.static e)
]

unfoldable pub qpack_get_dynamic : TableCommon → ℤ → ℤ → Option Entry
qpack_get_dynamic t i base = elim (get_dynamic t i base) [
  | none ↦ none
  | some e ↦ some (Entry.dynamic e)
]

-- `QpackDecoderTable.Insert`: the table, and the number of the entry; `none` is nil.
pub qpack_insert : Name → Name → TableCommon → TableCommon × Option ℕ
qpack_insert name value t =
    let entry : DynamicEntry = record { name = name; value = value; base = 0; usage_count = 0 } in
    let ((t', s), inserted) = insert no_check entry t tt in
    (t', if inserted then some t'.base else none)

pub or_index_error : Option Entry → Reads Entry
or_index_error none r = (r, err Error.index_error)
or_index_error (some e) r = (r, ok e)

-- The static table for a bit that is set, else the dynamic table relative to the base.
pub get_either : TableCommon → ℕ → ℕ → ℤ → Option Entry
get_either t static index base =
    if static == 0 then qpack_get_dynamic t (pos index) base else qpack_get_static index

-- The end of an insertion: the number of the new entry goes to the channel `available`; without one
-- there is a panic.
insert_value : Name × Name → TableCommon → TableCommon × Result ℕ
insert_value (name, value) t =
    let (t', number) = qpack_insert name value t in
    if ltb t.capacity (entry_overhead + (length name + length value))
    then (t, err Error.table_overflow)
    else (t', elim number [ none ↦ err Error.panicked | some n ↦ ok n ])

-- A read, then a change of the table that may fail.
abbrev inserting : (TableCommon → Reads (Name × Name)) → Decodes ℕ
inserting m t r =
    let (r', x) = m t r in
    elim x [ err e ↦ (t, r', err e) | ok nv ↦ (let (t', y) = insert_value nv t in (t', r', y)) ]

with_value : Name → Reads (Name × Name)
with_value name = do value ← read_string 7; pure (name, value)

referenced_name : TableCommon → Reads (Name × Name)
referenced_name t = do
  static ← read_bit
  index ← read_index 6
  entry ← or_index_error (get_either t static index (pos t.base))
  with_value (entry_name entry)

pub read_insert_with_name_reference : Decodes ℕ
unfolding insert_value
read_insert_with_name_reference = inserting referenced_name

literal_name : TableCommon → Reads (Name × Name)
literal_name t = do name ← read_string 5; with_value name

pub read_insert_with_name_literal : Decodes ℕ
unfolding insert_value
read_insert_with_name_literal = inserting literal_name

duplicated : TableCommon → Reads Entry
duplicated t = do
  index ← read_index 5
  or_index_error (qpack_get_dynamic t (pos index) (pos t.base))

-- The entry is in the table, so there is no check of its size.
pub read_duplicate : Decodes ℕ
read_duplicate t r =
    let (r', x) = duplicated t r in
    elim x [
      | err e ↦ (t, r', err e)
      | ok entry ↦
          (let (t', number) = qpack_insert (entry_name entry) (entry_value entry) t in
            (t', r', elim number [ none ↦ err Error.panicked | some n ↦ ok n ]))
    ]

pub read_dynamic_update : Decodes (Unit {0})
read_dynamic_update = decoding (λ t. read_int 5) (λ capacity t. (set_capacity capacity t, tt))

-- What a round of the loop of `ReadTableUpdates` comes to.
pub data Update : Type 0 where
  no_more capacity_set : Update
  entry_inserted : ℕ → Update

abbrev making {ℓ} : {A : Type ℓ} → (A → Update) → Decodes A → Decodes Update
making f m t r =
    let (t', r', x) = m t r in elim x [ err e ↦ (t', r', err e) | ok a ↦ (t', r', ok (f a)) ]

-- The error io.EOF of the first bit of a round ends the loop.
pub ends_updates : Error → Result Update
ends_updates Error.eof = ok no_more
ends_updates e = err e

pub read_update : Decodes Update
unfolding ends_updates
read_update t r =
    let (r', x) = read_bit r in
    elim x [
      | err e ↦ (t, r', ends_updates e)
      | ok b ↦
          if b == 1
          then making entry_inserted read_insert_with_name_reference t r'
          else branching (making entry_inserted read_insert_with_name_literal)
              (branching (making (λ u. capacity_set) read_dynamic_update)
                (making entry_inserted read_duplicate))
              t r'
    ]

-- The loop, with the rounds that are left, and the numbers that it sends to `available`.
pub read_updates :
    ℕ → List ℕ → TableCommon → BitReader → TableCommon × BitReader × List ℕ × Option Error
read_updates zero available t r = (t, r, available, some Error.panicked)
read_updates (suc rounds) available t r =
    let (t', r', x) = read_update t r in
    elim x [
      | err e ↦ (t', r', available, some e)
      | ok no_more ↦ (t', r', available, none)
      | ok capacity_set ↦ read_updates rounds available t' r'
      | ok (entry_inserted n) ↦ read_updates rounds (available ++ n ∷ []) t' r'
    ]

-- Every round that does not end the loop takes at least one bit.
pub read_table_updates : TableCommon → Source → TableCommon × BitReader × List ℕ × Option Error
read_table_updates t source =
    read_updates (8 * length source.bytes + 1) [] t (new_bit_reader source)
