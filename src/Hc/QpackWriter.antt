-- ===== src/Hc/QpackWriter.antt =====
-- hc/qpackencoder.go: the writing of a QPACK header block: `qpackWriterState`, the changes of the
-- table that come first, on the encoder stream, and the representations.
pub mod Blocks
pub mod Blocking
pub mod Calls
pub mod Slots
pub mod Holding
use minhq.Base.{
  ℕ, zero, suc, ◌+◌, ◌-◌, ◌*◌, ◌^◌, List, [], ◌∷◌, ◌++◌, Bool, true, false, not, ◌&&◌, ◌||◌, Option,
  none, some, Error, ltb, leb, ◌==◌, length, map, if◌then◌else◌,
}
use minhq.Base.Words.{◌<<<◌}
use minhq.Base.Int.{ℤ, pos, negsuc, ◌+ℤ◌, ◌-ℤ◌}
use minhq.Base.Names.{Name}
use minhq.Io.BitWriter.{BitWriter, Sink, Writes, ◌>>◌, done, write_bits, new_bit_writer}
use minhq.Hc.Integers.{write_int}
use minhq.Hc.Strings.{HuffmanCodingChoice, write_string_raw}
use minhq.Hc.Headers.{HeaderField}
use minhq.Hc.IndexPreferences.{IndexPrefs, should_index}
use minhq.Hc.Table.{DynamicEntry, Entry, EvictionCheck, TableCommon, index_from}
use minhq.Hc.QpackTable.{QpackEncoderTable, lookup_referenceable, lookup_blocked, lookup_extra}
use minhq.Hc.UsageTracker.{
  HeaderBlockUsage, Counts, block_add, new_block, get, stream_max, record_usage,
}
use minhq.Hc.LargestReference.{encode_largest_reference}
use minhq.Hc.QpackEncoder.{QpackEncoder, insert_checked, with_uses}
use Prim.Native.Nat.{bit_or}

-- A header with what the block will refer to: the places of `headers`, `matches` and `nameMatches` at
-- one index.
pub record Slot : Type 0 where
  pub header : HeaderField
  pub full_match : Option Entry
  pub name_match : Option Entry

-- The rest of `qpackWriterState`; `none` is the largest int, for no smallest base and no maximum.
pub record WriterState : Type 0 where
  pub largest_base : ℕ
  pub smallest_base : Option ℕ
  pub was_blocked : Bool
  pub max_base : Option ℕ

-- `to_lower` stands for `strings.ToLower`.
pub init_headers : (Name → Name) → List HeaderField → List Slot
init_headers to_lower headers =
    map
      (λ (h : HeaderField). record {
        header = record h { name = to_lower h.name };
        full_match = none;
        name_match = none;
      })
      headers

-- The maximum is set anew, the rest is as it was made.
pub setup_usage : ℕ → ℕ → Bool → WriterState
setup_usage stream_largest highest_acknowledged blocking_allowed =
    let was_blocked = ltb highest_acknowledged stream_largest in
    record {
      largest_base = 0;
      smallest_base = none;
      was_blocked = was_blocked;
      max_base = if was_blocked || blocking_allowed then none else some highest_acknowledged;
    }

pub dyn_base : Entry → ℕ
dyn_base (Entry.static e) = 0
dyn_base (Entry.dynamic e) = e.base

pub within_base : ℕ → Option ℕ → Bool
within_base n none = true
within_base n (some m) = leb n m

lower_base : ℕ → Option ℕ → Option ℕ
lower_base n none = some n
lower_base n (some m) = if ltb n m then some n else some m

pub update_base : Entry → Bool → WriterState → WriterState
unfolding lower_base
update_base (Entry.static e) full state = state
update_base (Entry.dynamic e) full state = record state {
  largest_base = if ltb state.largest_base e.base then e.base else state.largest_base;
  smallest_base = if full then lower_base e.base state.smallest_base else state.smallest_base;
}

abbrev usable : Option Entry → WriterState → Bool
usable none state = false
usable (some e) state = within_base (dyn_base e) state.max_base

record_name : Option Entry → WriterState → Slot → WriterState × Slot
unfolding within_base
record_name none state slot = (state, slot)
record_name (some e) state slot =
    if usable (some e) state
    then (update_base e false state, record slot { name_match = some e })
    else (state, slot)

pub record_match : Option Entry → Option Entry → WriterState → Slot → WriterState × Slot
unfolding record_name within_base
record_match none name state slot = record_name name state slot
record_match (some e) name state slot =
    if usable (some e) state
    then (update_base e true state, record slot { full_match = some e })
    else record_name name state slot

pub is_newly_blocked : ℕ → WriterState → Bool
is_newly_blocked highest_acknowledged state =
    if state.was_blocked then false else ltb highest_acknowledged state.largest_base

-- The eviction check: what the block refers to stays. Its state is not changed.
pub can_evict : EvictionCheck WriterState
can_evict state e = (state, elim state.smallest_base [ none ↦ true | some m ↦ ltb e.base m ])

-- The encoder, what `encoderCommon` adds to it, and the encoder stream. A panic is `none`.
pub record Stream : Type 0 where
  pub encoder : QpackEncoder
  pub writer : BitWriter

abbrev pub Changes : Type 0
Changes = Stream × WriterState × Slot → Option ((Stream × WriterState × Slot) × Option Error)

-- Behind an insertion: the instruction, and the new entry as a match; without an entry nothing is written and a literal follows.
announced :
    Writes
    → Slot
    → BitWriter
    → Option ((QpackEncoder × WriterState) × Bool)
    → Option ((Stream × WriterState × Slot) × Option Error)
announced m slot bw none = none
announced m slot bw (some ((encoder, state), false)) =
    some ((record { encoder = encoder; writer = bw }, state, slot), none)
announced m slot bw (some ((encoder, state), true)) =
    let (bw', x) = m bw in
    elim x [
      | some e ↦ some ((record { encoder = encoder; writer = bw' }, state, slot), some e)
      | none ↦ elim encoder.table.common.dynamic [
        | [] ↦ none
        | newest ∷ older ↦
            (let (state', slot') = record_match (some (Entry.dynamic newest)) none state slot in
              some ((record { encoder = encoder; writer = bw' }, state', slot'), none))
      ]
    ]

-- The index before the insertion: the distance from the base as it was.
pub write_duplicate : DynamicEntry → Changes
unfolding announced
write_duplicate entry (stream, state, slot) =
    announced (write_bits 0 3 >> write_int (stream.encoder.table.common.base - entry.base) 5) slot
      stream.writer (insert_checked can_evict entry.name entry.value stream.encoder state)

-- The name of an insertion: a string, an index in the dynamic table, or one in the static table.
pub insertion_name : HuffmanCodingChoice → ℕ → Name → Option Entry → Writes
insertion_name huffman base name none = write_bits 1 2 >> write_string_raw name 5 huffman
insertion_name huffman base name (some (Entry.dynamic e)) =
    write_bits 2 2 >> write_int (base - e.base) 6
insertion_name huffman base name (some (Entry.static e)) = write_bits 3 2 >> write_int e.index 6

pub write_insert : HuffmanCodingChoice → Option Entry → Changes
unfolding announced
write_insert huffman name_match (stream, state, slot) =
    announced
      (insertion_name huffman stream.encoder.table.common.base slot.header.name name_match
        >> write_string_raw slot.header.value 7 huffman)
      slot stream.writer
      (insert_checked can_evict slot.header.name slot.header.value stream.encoder state)
