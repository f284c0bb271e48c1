-- ===== src/Hc/HpackEncoder.antt =====
-- hc/hpack.go: `HpackEncoder`.
pub mod Crossing
pub mod Fields
pub mod FieldLists
pub mod Capacities
pub mod Blocks
pub mod Refusing
use minhq.Base.{ℕ, List, [], ◌∷◌, Bool, true, false, Option, none, some, Error, ltb, if◌then◌else◌}
use minhq.Io.BitWriter.{BitWriter, Sink, Writes, ◌>>◌, done, write_bit, write_bits, new_bit_writer}
use minhq.Hc.Integers.{write_int}
use minhq.Hc.Strings.{HuffmanCodingChoice, huffman_coding_auto, write_string_raw}
use minhq.Hc.Headers.{HeaderField, starts_with_colon}
use minhq.Hc.IndexPreferences.{IndexPrefs, should_index}
use minhq.Hc.Table.{TableCommon, Entry, set_capacity}
use minhq.Hc.HpackTable.{hpack_index, hpack_insert, hpack_lookup}

pub record HpackEncoder : Type 0 where
  pub table : TableCommon
  pub min_capacity : ℕ
  pub next_capacity : ℕ
  pub huffman_preference : HuffmanCodingChoice
  pub index_prefs : IndexPrefs

pub set_next_capacity : ℕ → HpackEncoder → HpackEncoder
set_next_capacity c encoder = record encoder {
  min_capacity = if ltb c encoder.min_capacity then c else encoder.min_capacity;
  next_capacity = c;
}

pub new_hpack_encoder : ℕ → HpackEncoder
new_hpack_encoder capacity = set_next_capacity capacity (record {
  table = record { dynamic = []; capacity = 0; used = 0; base = 0 };
  min_capacity = 0;
  next_capacity = 0;
  huffman_preference = huffman_coding_auto;
  index_prefs = [];
})

-- A step of the encoder: its new state, the writer and Go's error.
abbrev pub Encodes : Type 0
Encodes = HpackEncoder → BitWriter → HpackEncoder × BitWriter × Option Error

-- A write that changes the encoder when it succeeds.
abbrev pub encoding : (HpackEncoder → Writes) → (HpackEncoder → HpackEncoder) → Encodes
encoding m f encoder bw =
    let (bw', x) = m encoder bw in
    elim x [ some e ↦ (encoder, bw', some e) | none ↦ (f encoder, bw', none) ]

infixl 5 ◌>=>◌
abbrev pub ◌>=>◌ : Encodes → Encodes → Encodes
◌>=>◌ m k encoder bw =
    let (encoder', bw', x) = m encoder bw in
    elim x [ some e ↦ (encoder', bw', some e) | none ↦ k encoder' bw' ]

abbrev pub unchanged : HpackEncoder → HpackEncoder
unchanged encoder = encoder

pub write_capacity : ℕ → Writes
write_capacity c = write_bits 1 3 >> write_int c 5

pub write_min_capacity : Encodes
write_min_capacity encoder bw =
    if ltb encoder.min_capacity encoder.table.capacity
    then encoding (λ e. write_capacity e.min_capacity)
        (λ e. record e { table = set_capacity e.min_capacity e.table }) encoder bw
    else (encoder, bw, none)

pub write_next_capacity : Encodes
write_next_capacity encoder bw =
    if ltb encoder.table.capacity encoder.next_capacity
    then encoding (λ e. write_capacity e.next_capacity)
        (λ e. record e {
          table = set_capacity e.next_capacity e.table;
          min_capacity = e.next_capacity;
        })
        encoder bw
    else (encoder, bw, none)

pub write_capacity_change : Encodes
write_capacity_change = write_min_capacity >=> write_next_capacity

pub write_indexed : Entry → HpackEncoder → Writes
write_indexed entry encoder = write_bit 1 >> write_int (hpack_index entry encoder.table) 7

-- Without an entry for the name, the index 0 and the name as a string.
pub write_name : HeaderField → Option Entry → ℕ → HpackEncoder → Writes
write_name h none prefix encoder =
    write_int 0 prefix >> write_string_raw h.name 7 encoder.huffman_preference
write_name h (some entry) prefix encoder = write_int (hpack_index entry encoder.table) prefix

pub write_name_value : HeaderField → Option Entry → ℕ → HpackEncoder → Writes
write_name_value h name_entry prefix encoder =
    write_name h name_entry prefix encoder >> write_string_raw h.value 7 encoder.huffman_preference

pub write_incremental : HeaderField → Option Entry → Encodes
write_incremental h name_entry =
    encoding (λ e. write_bits 1 2 >> write_name_value h name_entry 6 e)
      (λ e. record e { table = (hpack_insert h.name h.value e.table).0 })

pub write_literal : HeaderField → Option Entry → HpackEncoder → Writes
write_literal h name_entry encoder =
    write_bits (if h.sensitive then 1 else 0) 4 >> write_name_value h name_entry 4 encoder

-- The choice of a representation: `m` and `nm` are what the lookup found.
pub write_found : HeaderField → Option Entry × Option Entry → Encodes
write_found h (some m, nm) encoder bw = encoding (write_indexed m) unchanged encoder bw
write_found h (none, nm) encoder bw =
    if should_index encoder.table.capacity encoder.index_prefs h
    then write_incremental h nm encoder bw
    else encoding (write_literal h nm) unchanged encoder bw

pub write_field : HeaderField → Encodes
write_field h encoder bw =
    if h.sensitive
    then encoding (write_literal h none) unchanged encoder bw
    else write_found h (hpack_lookup h.name h.value encoder.table) encoder bw

-- The loop of `WriteHeaderBlock` from a value of `pseudo`; an empty name is a panic.
pub write_fields : Bool → List HeaderField → Encodes
write_fields pseudo [] encoder bw = (encoder, bw, none)
write_fields pseudo (h ∷ hs) encoder bw =
    let in_order = (write_field h >=> write_fields true hs) encoder bw in
    let regular = (write_field h >=> write_fields false hs) encoder bw in
    elim (starts_with_colon h.name) [
      | none ↦ (encoder, bw, some Error.panicked)
      | some true ↦ if pseudo then in_order else (encoder, bw, some Error.pseudo_header_ordering)
      | some false ↦ regular
    ]

pub write_header_block :
    List HeaderField → HpackEncoder → Sink → HpackEncoder × BitWriter × Option Error
write_header_block headers encoder sink =
    (write_capacity_change >=> write_fields true headers) encoder (new_bit_writer sink)
