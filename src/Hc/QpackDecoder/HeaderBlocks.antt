-- ===== src/Hc/QpackDecoder/HeaderBlocks.antt =====
-- hc/qpackdecoder.go: header blocks. `ReadHeaderBlock` waits once, for the table to reach the largest
-- base of the block; behind that the table stands still in this model.
pub mod PostBase
use minhq.Base.{
  ℕ, zero, suc, ◌+◌, ◌-◌, ◌*◌, ◌%◌, ◌^◌, List, [], ◌∷◌, ◌++◌, Bool, true, false, ◌&&◌, Option, none,
  some, Error, Result, ok, err, ltb, leb, ◌==◌, length, if◌then◌else◌,
}
use minhq.Base.Int.{ℤ, pos, negsuc, ◌+ℤ◌, ◌-ℤ◌}
use minhq.Io.BitReader.{BitReader, Reads, Source, ◌>>=◌, pure, fail, read_bit, new_bit_reader}
use minhq.Hc.Integers.{read_int, read_index}
use minhq.Hc.Strings.{read_string}
use minhq.Hc.Headers.{HeaderField}
use minhq.Hc.Table.{Entry, TableCommon, entry_name, entry_value}
use minhq.Hc.LargestReference.{decode_largest_base}
use minhq.Hc.QpackFeedback.{FeedbackEvent, block_acknowledged}
use minhq.Hc.QpackDecoder.{qpack_get_static, qpack_get_dynamic, or_index_error, get_either}

-- `int(largestReference)` of a uint64.
int_of : ℕ → ℤ
int_of n = if leb (2 ^ 63) n then negsuc (2 ^ 64 - n - 1) else pos n

-- An int that wraps.
word_of : ℤ → ℕ
word_of (pos n) = n % 2 ^ 64
word_of (negsuc n) = 2 ^ 64 - 1 - n % 2 ^ 64

wrapped : ℤ → ℤ
unfolding int_of word_of
wrapped z = int_of (word_of z)

or_panic : Option ℕ → Reads ℤ
unfolding int_of
or_panic none r = (r, err Error.panicked)
or_panic (some n) r = (r, ok (int_of n))

-- The part of `readBase` in front of the wait.
pub read_largest_base : TableCommon → Reads ℤ
unfolding or_panic
read_largest_base t = do raw ← read_int 8; or_panic (decode_largest_base t.capacity t.base raw)

-- The part of `readBase` behind the wait; the sign 1 means negative.
pub read_delta : ℤ → Reads ℤ
unfolding wrapped
read_delta largest = do
  sign ← read_bit
  delta ← read_index 7
  if sign == 1 && delta == 0
      then fail Error.base_delta
      else pure (wrapped (if sign == 1 then largest -ℤ pos delta else largest +ℤ pos delta))

indexed_field : Entry → HeaderField
indexed_field e = record { name = entry_name e; value = entry_value e; sensitive = false }

pub qpack_read_indexed : TableCommon → ℤ → Reads HeaderField
unfolding indexed_field
qpack_read_indexed t base = do
  static ← read_bit
  index ← read_index 6
  entry ←
      or_index_error
        (if static == 1 then qpack_get_static index else qpack_get_dynamic t (pos index) base)
  pure (indexed_field entry)

-- -1 - postBase.
unfoldable pub post_base_entry : TableCommon → ℕ → ℤ → Option Entry
post_base_entry t index base = qpack_get_dynamic t (negsuc index) base

pub read_post_base_indexed : TableCommon → ℤ → Reads HeaderField
unfolding indexed_field
read_post_base_indexed t base = do
  index ← read_index 4
  entry ← or_index_error (post_base_entry t index base)
  pure (indexed_field entry)

with_name : ℕ → Entry → Reads HeaderField
with_name never_index entry = do
  value ← read_string 7
  pure (record { name = entry_name entry; value = value; sensitive = never_index == 1 })

pub read_literal_with_name_reference : TableCommon → ℤ → Reads HeaderField
unfolding with_name
read_literal_with_name_reference t base = do
  never_index ← read_bit
  static ← read_bit
  index ← read_index 4
  entry ←
      or_index_error
        (if static == 1 then qpack_get_static index else qpack_get_dynamic t (pos index) base)
  with_name never_index entry

-- -1 * postBase.
unfoldable pub post_base_name_entry : TableCommon → ℕ → ℤ → Option Entry
post_base_name_entry t index base = qpack_get_dynamic t (pos 0 -ℤ pos index) base

pub read_literal_with_post_base_name_reference : TableCommon → ℤ → Reads HeaderField
unfolding with_name
read_literal_with_post_base_name_reference t base = do
  never_index ← read_bit
  index ← read_index 3
  entry ← or_index_error (post_base_name_entry t index base)
  with_name never_index entry

pub read_literal_with_name_literal : Reads HeaderField
read_literal_with_name_literal = do
  never_index ← read_bit
  name ← read_string 3
  value ← read_string 7
  pure (record { name = name; value = value; sensitive = never_index == 1 })

choose : Reads HeaderField → Reads HeaderField → Reads HeaderField
choose on_one on_zero = read_bit >>= λ b. (if b == 1 then on_one else on_zero)

-- A round behind its first bit.
pub read_representation : ℕ → TableCommon → ℤ → Reads HeaderField
unfolding choose
read_representation first t base =
    if first == 1
    then qpack_read_indexed t base
    else choose (read_literal_with_name_reference t base) (
        choose read_literal_with_name_literal (
          choose (read_post_base_indexed t base)
            (read_literal_with_post_base_name_reference t base)))

-- The loop of `ReadHeaderBlock`, with the rounds that are left.
at_end_of_block : Error → List HeaderField → Result (List HeaderField)
at_end_of_block Error.eof headers = ok headers
at_end_of_block e headers = err e

pub read_representations : ℕ → List HeaderField → TableCommon → ℤ → Reads (List HeaderField)
unfolding at_end_of_block
read_representations zero headers t base r = (r, err Error.panicked)
read_representations (suc rounds) headers t base r =
    let (r', x) = read_bit r in
    elim x [
      | err e ↦ (r', at_end_of_block e headers)
      | ok b ↦
          (let (r'', y) = read_representation b t base r' in
            elim y [
              | err e ↦ (r'', err e)
              | ok h ↦ read_representations rounds (headers ++ h ∷ []) t base r''
            ])
    ]

-- A block that refers to the dynamic table is acknowledged.
acknowledgment : ℕ → ℤ → Option FeedbackEvent
acknowledgment id (pos zero) = none
acknowledgment id (pos (suc n)) = some (block_acknowledged id (suc n))
acknowledgment id (negsuc n) = none

reaches : ℕ → ℤ → Bool
reaches base (pos n) = leb n base
reaches base (negsuc n) = true

pub data BlockOutcome : Type 0 where
  still_waiting : BlockOutcome
  failed : Error → BlockOutcome
  finished : List HeaderField → Option FeedbackEvent → BlockOutcome

finish : ℕ → ℤ → ℕ → TableCommon → BitReader → BlockOutcome
unfolding acknowledgment
finish id largest rounds t r =
    let (r', x) = read_delta largest r in
    elim x [
      | err e ↦ failed e
      | ok base ↦ elim ((read_representations rounds [] t base r').1) [
        | err e ↦ failed e
        | ok headers ↦ finished headers (acknowledgment id largest)
      ]
    ]

-- `t` is the table when the block arrives, and `t'` the one that the wait ends with.
pub qpack_read_header_block : TableCommon → TableCommon → ℕ → Source → BlockOutcome
unfolding finish reaches
qpack_read_header_block t t' id source =
    let (r, x) = read_largest_base t (new_bit_reader source) in
    elim x [
      | err e ↦ failed e
      | ok largest ↦
          if reaches t'.base largest
          then finish id largest (8 * length source.bytes + 1) t' r
          else still_waiting
    ]
