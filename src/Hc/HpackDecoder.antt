-- ===== src/Hc/HpackDecoder.antt =====
-- hc/hpack.go: `HpackDecoder`. Its state is its table.
pub mod ReadBack
pub mod Rounds
pub mod Blocks
pub mod Progress
use minhq.Base.{
  ℕ, zero, suc, ◌+◌, ◌*◌, List, [], ◌∷◌, Bool, true, false, Option, none, some, Error, Result, ok,
  err, ◌==◌, length, ◌++◌, if◌then◌else◌,
}
use minhq.Base.Names.{Name}
use minhq.Io.BitReader.{BitReader, Reads, Source, ◌>>=◌, pure, fail, read_bit, new_bit_reader}
use minhq.Hc.Integers.{read_int, read_index}
use minhq.Hc.Strings.{read_string}
use minhq.Hc.Headers.{HeaderField, validate_pseudo_headers}
use minhq.Hc.Table.{TableCommon, Entry, entry_name, entry_value, set_capacity}
use minhq.Hc.HpackTable.{hpack_get, hpack_insert}

-- The entry at an index, or ErrIndexError.
pub get_entry : TableCommon → ℕ → Reads Entry
get_entry t i r = elim (hpack_get i t) [ none ↦ (r, err Error.index_error) | some e ↦ (r, ok e) ]

pub read_indexed : TableCommon → Reads HeaderField
read_indexed t = do
  index ← read_index 7
  entry ← get_entry t index
  pure (record { name = entry_name entry; value = entry_value entry; sensitive = false })

-- The name: a string behind the index 0, or that of the entry at the index.
pub read_name : TableCommon → ℕ → Reads Name
read_name t index =
    if index == 0 then read_string 7 else (get_entry t index >>= λ entry. pure (entry_name entry))

pub read_name_value : TableCommon → ℕ → Reads (Name × Name)
read_name_value t prefix = do
  index ← read_index prefix
  name ← read_name t index
  value ← read_string 7
  pure (name, value)

pub read_literal : TableCommon → Reads HeaderField
read_literal t = do
  ni ← read_bit
  (name, value) ← read_name_value t 4
  pure (record { name = name; value = value; sensitive = ni == 1 })

-- A read that changes the table when it succeeds.
abbrev pub Decodes {ℓ} : Type ℓ → Type ℓ
Decodes A = TableCommon → BitReader → TableCommon × BitReader × Result A

abbrev pub decoding {ℓ κ} :
    {A : Type ℓ} {B : Type κ}
    → (TableCommon → Reads A)
    → (A → TableCommon → TableCommon × B)
    → Decodes B
decoding m f t r =
    let (r', x) = m t r in
    elim x [ err e ↦ (t, r', err e) | ok a ↦ (let (t', b) = f a t in (t', r', ok b)) ]

-- A read that leaves the table as it is.
abbrev pub reading {ℓ} : {A : Type ℓ} → (TableCommon → Reads A) → Decodes A
reading m = decoding m (λ a t. (t, a))

abbrev pub insert_field : Name × Name → TableCommon → TableCommon × HeaderField
insert_field (name, value) t =
    ((hpack_insert name value t).0, record { name = name; value = value; sensitive = false })

pub read_incremental : Decodes HeaderField
read_incremental = decoding (λ t. read_name_value t 6) insert_field

abbrev pub adopt_capacity : ℕ → TableCommon → TableCommon × Unit {0}
adopt_capacity capacity t = (set_capacity capacity t, tt)

pub read_capacity : Decodes (Unit {0})
read_capacity = decoding (λ t. read_int 5) adopt_capacity

-- What a round of the loop of `ReadHeaderBlock` comes to: the input is at its end, an instruction has
-- been carried out, or a field is appended.
pub data Round : Type 0 where
  ended : Round
  instructed : Round
  appended : HeaderField → Round

abbrev pub appending : Decodes HeaderField → Decodes Round
appending m t r =
    let (t', r', x) = m t r in
    elim x [ err e ↦ (t', r', err e) | ok h ↦ (t', r', ok (Round.appended h)) ]

abbrev pub instructing : Decodes (Unit {0}) → Decodes Round
instructing m t r =
    let (t', r', x) = m t r in
    elim x [ err e ↦ (t', r', err e) | ok h ↦ (t', r', ok Round.instructed) ]

-- A bit chooses between two continuations.
abbrev pub branching {ℓ} : {A : Type ℓ} → Decodes A → Decodes A → Decodes A
branching on_one on_zero t r =
    let (r', x) = read_bit r in
    elim x [ err e ↦ (t, r', err e) | ok b ↦ if b == 1 then on_one t r' else on_zero t r' ]

-- The error io.EOF of the first bit of a round ends the loop.
pub at_end : Error → Result Round
at_end Error.eof = ok Round.ended
at_end e = err e

pub behind_zeros : Decodes Round
behind_zeros = branching (instructing read_capacity) (appending (reading read_literal))

pub behind_zero : Decodes Round
behind_zero = branching (appending read_incremental) behind_zeros

pub read_round : Decodes Round
unfolding at_end
read_round t r =
    let (r', x) = read_bit r in
    elim x [
      | err e ↦ (t, r', at_end e)
      | ok b ↦ if b == 1 then appending (reading read_indexed) t r' else behind_zero t r'
    ]

-- The loop of `ReadHeaderBlock`, with the rounds that are left.
pub read_fields : ℕ → List HeaderField → Decodes (List HeaderField)
read_fields zero headers t r = (t, r, err Error.panicked)
read_fields (suc rounds) headers t r =
    let (t', r', x) = read_round t r in
    elim x [
      | err e ↦ (t', r', err e)
      | ok Round.ended ↦ (t', r', ok headers)
      | ok Round.instructed ↦ read_fields rounds headers t' r'
      | ok (Round.appended h) ↦ read_fields rounds (headers ++ h ∷ []) t' r'
    ]

checked : Option Error → List HeaderField → Result (List HeaderField)
checked none headers = ok headers
checked (some e) headers = err e

-- The loop over the headers is written out in `ReadHeaderBlock`, as in `ValidatePseudoHeaders`.
-- Every round of the first loop that does not end it takes at least one bit.
pub read_header_block : TableCommon → Source → TableCommon × BitReader × Result (List HeaderField)
unfolding checked
read_header_block t source =
    let (t', r', x) = read_fields (8 * length source.bytes + 1) [] t (new_bit_reader source) in
    elim x [
      | err e ↦ (t', r', err e)
      | ok headers ↦ (t', r', checked (validate_pseudo_headers headers) headers)
    ]
