-- ===== src/Hc/QpackWriter/Blocks.antt =====
-- hc/qpackencoder.go: `writeTableChanges` and `writeHeaderBlock`. The goroutines take turns under the
-- encoder's lock; here the two calls of one header block follow each other.
pub mod Rounds
pub mod Newly
pub mod Uses
pub mod Limit
use minhq.Base.{
  ℕ, ◌+◌, List, [], ◌∷◌, Bool, true, ◌&&◌, Option, none, some, Error, ltb, leb, length,
  if◌then◌else◌,
}
use minhq.Base.Words.{◌<<<◌}
use minhq.Base.Int.{ℤ, pos, negsuc, ◌+ℤ◌}
use minhq.Io.BitWriter.{BitWriter, Sink, Writes, ◌>>◌, write_bits, new_bit_writer}
use minhq.Hc.Integers.{write_int}
use minhq.Hc.Strings.{HuffmanCodingChoice, write_string_raw}
use minhq.Base.Names.{Name}
use minhq.Hc.Headers.{HeaderField}
use minhq.Hc.IndexPreferences.{IndexPrefs, should_index}
use minhq.Hc.Table.{DynamicEntry, Entry, index_from}
use minhq.Hc.QpackTable.{lookup_referenceable, lookup_blocked, lookup_extra}
use minhq.Hc.UsageTracker.{
  HeaderBlockUsage, Counts, block_add, new_block, get, stream_max, record_usage, fill_newest,
}
use minhq.Hc.LargestReference.{encode_largest_reference}
use minhq.Hc.QpackEncoder.{QpackEncoder}
use minhq.Hc.QpackWriter.{
  Slot, WriterState, Stream, Changes, init_headers, setup_usage, record_match, is_newly_blocked,
  write_duplicate, write_insert,
}
use Prim.Native.Nat.{bit_or}

-- The largest int stands for any base of the table.
capped_base : ℕ → Option ℕ → ℕ
capped_base base none = base
capped_base base (some m) = m

dynamic_entry : Option DynamicEntry → Option Entry
dynamic_entry none = none
dynamic_entry (some e) = some (Entry.dynamic e)

-- The name match that can be referred to goes before the one at risk.
or_at_risk : Option Entry → Option DynamicEntry → Option Entry
unfolding dynamic_entry
or_at_risk (some e) extra = some e
or_at_risk none extra = dynamic_entry extra

-- Without a match of the whole field: the name match is kept, and the field may be inserted.
change_new : HuffmanCodingChoice → IndexPrefs → Option Entry → Option DynamicEntry → Changes
unfolding or_at_risk
change_new huffman prefs name_match extra (stream, state, slot) =
    let (state', slot') = record_match none name_match state slot in
    let h = slot.header in
    let capacity = stream.encoder.table.common.capacity in
    if should_index capacity prefs h && leb (32 + (length h.name + length h.value)) capacity
    then write_insert huffman (or_at_risk name_match extra) (stream, state', slot')
    else some ((stream, state', slot'), none)

-- A round of the loop of `writeTableChanges`.
pub change_slot : HuffmanCodingChoice → IndexPrefs → Changes
unfolding change_new capped_base
change_slot huffman prefs (stream, state, slot) =
    let h = slot.header in
    let table = stream.encoder.table in
    let max_base = capped_base table.common.base state.max_base in
    let (full, name) = lookup_referenceable h.name h.value max_base table in
    let (duplicate, extra) = lookup_extra h.name h.value table in
    let unchanged = some ((stream, state, slot), none) in
    if h.sensitive then unchanged else elim full [
      | some e ↦
          (let (state', slot') = record_match (some e) name state slot in
            some ((stream, state', slot'), none))
      | none ↦ if lookup_blocked h.name h.value max_base table then unchanged else elim duplicate [
        | none ↦ change_new huffman prefs name extra (stream, state, slot)
        | some d ↦
            if leb d.base stream.encoder.highest_acknowledged
            then write_duplicate d (stream, state, slot)
            else unchanged
      ]
    ]

-- The loop over the slots; the first error ends it.
pub change_slots :
    HuffmanCodingChoice
    → IndexPrefs
    → List Slot
    → Stream × WriterState
    → Option ((Stream × WriterState) × List Slot × Option Error)
change_slots huffman prefs [] s = some (s, [], none)
change_slots huffman prefs (slot ∷ slots) (stream, state) =
    elim (change_slot huffman prefs (stream, state, slot)) [
      | none ↦ none
      | some ((stream', state', slot'), some e) ↦ some ((stream', state'), slot' ∷ slots, some e)
      | some ((stream', state', slot'), none) ↦
          elim (change_slots huffman prefs slots (stream', state')) [
            | none ↦ none
            | some (s, rest, e) ↦ some (s, slot' ∷ rest, e)
          ]
    ]

-- Behind the loop: the stream may be newly blocked, and the block, which has no uses yet, is recorded.
settle : ℕ → Stream × WriterState → Stream × WriterState
settle id (stream, state) =
    let e = stream.encoder in
    (
      record stream {
        encoder = record e {
          blocked_streams =
              if is_newly_blocked e.highest_acknowledged state
              then e.blocked_streams +ℤ pos 1
              else e.blocked_streams;
          usage = record_usage state.largest_base id new_block e.usage;
        };
      },
      state,
    )

-- `blockingAllowed`.
pub blocking_allowed : ℕ → ℤ → Bool
blocking_allowed max_blocked_streams (pos n) = ltb n max_blocked_streams
blocking_allowed max_blocked_streams (negsuc n) = true

pub write_table_changes :
    (Name → Name)
    → HuffmanCodingChoice
    → IndexPrefs
    → ℕ
    → List HeaderField
    → Stream
    → Option ((Stream × WriterState) × List Slot × Option Error)
unfolding settle
write_table_changes to_lower huffman prefs id headers stream =
    let (usage, su) = get id stream.encoder.usage in
    let encoder = record (stream.encoder) { usage = usage } in
    let allowed = blocking_allowed encoder.max_blocked_streams encoder.blocked_streams in
    let state = setup_usage (stream_max su) encoder.highest_acknowledged allowed in
    elim (change_slots huffman prefs (init_headers to_lower headers)
      (record stream { encoder = encoder }, state)) [
        | none ↦ none
        | some (s, slots, some e) ↦ some (s, slots, some e)
        | some (s, slots, none) ↦ some (settle id s, slots, none)
      ]

-- An indexed field: relative to the base, behind it, or static.
index_instruction : ℤ → Writes
index_instruction (pos i) = write_bits 2 2 >> write_int i 6
index_instruction (negsuc i) = write_bits 1 4 >> write_int i 4

pub qpack_write_indexed : ℕ → Entry → Writes
unfolding index_instruction
qpack_write_indexed largest_base (Entry.dynamic e) =
    index_instruction (index_from (pos largest_base) e)
qpack_write_indexed largest_base (Entry.static e) = write_bits 3 2 >> write_int e.index 6

name_instruction : ℕ → ℤ → Writes
name_instruction sensitive (pos i) = write_bits (bit_or 4 (sensitive <<< 1)) 4 >> write_int i 4
name_instruction sensitive (negsuc i) = write_bits sensitive 5 >> write_int i 3

pub write_literal_name_reference : ℕ → ℕ → Entry → Writes
unfolding name_instruction
write_literal_name_reference largest_base sensitive (Entry.dynamic e) =
    name_instruction sensitive (index_from (pos largest_base) e)
write_literal_name_reference largest_base sensitive (Entry.static e) =
    write_bits (bit_or 5 (sensitive <<< 1)) 4 >> write_int e.index 4

literal_name : HuffmanCodingChoice → ℕ → ℕ → HeaderField → Option Entry → Writes
literal_name huffman largest_base sensitive h none =
    write_bits (bit_or 2 sensitive) 4 >> write_string_raw h.name 3 huffman
literal_name huffman largest_base sensitive h (some e) =
    write_literal_name_reference largest_base sensitive e

pub qpack_write_literal : HuffmanCodingChoice → ℕ → HeaderField → Option Entry → Writes
unfolding literal_name
qpack_write_literal huffman largest_base h name_match =
    literal_name huffman largest_base (if h.sensitive then 1 else 0) h name_match
    >> write_string_raw h.value 7 huffman

-- `writeIndexed` with a full match, and else `writeLiteral`.
pub write_slot : HuffmanCodingChoice → ℕ → Slot → Writes
write_slot huffman largest_base slot = elim slot.full_match [
  | some e ↦ qpack_write_indexed largest_base e
  | none ↦ qpack_write_literal huffman largest_base slot.header slot.name_match
]

use_entry : Option Entry → HeaderBlockUsage × Counts → HeaderBlockUsage × Counts
use_entry none uses = uses
use_entry (some (Entry.static e)) uses = uses
use_entry (some (Entry.dynamic e)) uses = block_add e.base uses

pub add_use : Slot → HeaderBlockUsage × Counts → HeaderBlockUsage × Counts
unfolding use_entry
add_use slot uses = elim slot.full_match [
  | some e ↦ use_entry (some e) uses
  | none ↦ use_entry slot.name_match uses
]

-- The loop of `writeHeaderBlock`, with the uses so far.
pub write_slots :
    HuffmanCodingChoice
    → ℕ
    → List Slot
    → (HeaderBlockUsage × Counts)
    → BitWriter
    → (HeaderBlockUsage × Counts) × (BitWriter × Option Error)
write_slots huffman largest_base [] uses bw = (uses, (bw, none))
write_slots huffman largest_base (slot ∷ slots) uses bw =
    let (bw', x) = write_slot huffman largest_base slot bw in
    elim x [
      | some e ↦ (uses, (bw', some e))
      | none ↦ write_slots huffman largest_base slots (add_use slot uses) bw'
    ]

-- The prefix of a block: the largest reference, and a base delta of 0. `none` is a panic.
pub write_prefix : ℕ → ℕ → Option Writes
write_prefix capacity largest_base = elim (encode_largest_reference capacity largest_base) [
  | none ↦ none
  | some n ↦ some (write_int n 8 >> write_int 0 8)
]

-- What `addUse` has put behind the pointer to the block, which the tracker has when the block refers to
-- something.
with_block : ℕ → ℕ → HeaderBlockUsage × Counts → QpackEncoder → QpackEncoder
with_block id largest_base (block, uses) encoder = record encoder {
  usage = if ltb 0 largest_base then fill_newest id block encoder.usage else encoder.usage;
  uses = uses;
}

-- `writeHeaderBlock`; a failed prefix leaves the block without uses.
pub write_block :
    HuffmanCodingChoice
    → ℕ
    → List Slot
    → WriterState
    → QpackEncoder
    → Sink
    → Option (QpackEncoder × BitWriter × Option Error)
unfolding with_block
write_block huffman id slots state encoder sink =
    elim (write_prefix encoder.table.common.capacity state.largest_base) [
      | none ↦ none
      | some m ↦
          (let (bw, x) = m (new_bit_writer sink) in
            let (uses, (bw', y)) =
              write_slots huffman state.largest_base slots (new_block, encoder.uses) bw in
            elim x [
              | some e ↦ some (encoder, bw, some e)
              | none ↦ some (with_block id state.largest_base uses encoder, bw', y)
            ])
    ]

-- `WriteHeaderBlock` of a QPACK encoder.
pub qpack_write_header_block :
    (Name → Name)
    → HuffmanCodingChoice
    → IndexPrefs
    → ℕ
    → List HeaderField
    → Stream
    → Sink
    → Option (Stream × BitWriter × Option Error)
qpack_write_header_block to_lower huffman prefs id headers stream sink =
    elim (write_table_changes to_lower huffman prefs id headers stream) [
      | none ↦ none
      | some ((stream', state), slots, some e) ↦ some (stream', new_bit_writer sink, some e)
      | some ((stream', state), slots, none) ↦
          elim (write_block huffman id slots state stream'.encoder sink) [
            | none ↦ none
            | some (encoder, bw, e) ↦ some (record stream' { encoder = encoder }, bw, e)
          ]
    ]
