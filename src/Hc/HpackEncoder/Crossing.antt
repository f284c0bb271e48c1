-- ===== src/Hc/HpackEncoder/Crossing.antt =====
-- What the encoder writes, the decoder reads: names, values and representations.
use minhq.Base.{
  ℕ, ◌+◌, ◌-◌, ◌*◌, ◌^◌, ◌≤◌, ◌<◌, ◌≡◌, subst, List, [], ◌++◌, Option, none, some, All, length,
  length-append, arith,
}
use minhq.Base.Words.{IsByte}
use minhq.Base.Bits.{bits_of, length-bits_of}
use minhq.Io.BitWriter.View.{byte_bits}
use minhq.Io.BitWriter.Padding.{length-byte_bits}
use minhq.Io.Travels.{Puts, Takes, Travels, >>-Puts}
use minhq.Hc.Integers.{write_int}
use minhq.Hc.Integers.Bits.{int_bits, write_int-Wrote, length-int_bits}
use minhq.Hc.Strings.{HuffmanCodingChoice, write_string_raw, read_string}
use minhq.Hc.Strings.Plain.{string_bits}
use minhq.Hc.Strings.RoundTrip.{IsReadable, read_string-Travels}
use minhq.Hc.Headers.{HeaderField}
use minhq.Hc.StaticTable.{hpack_static_table}
use minhq.Hc.Table.{TableCommon, Entry}
use minhq.Hc.Table.Inserting.{IsValid}
use minhq.Hc.Table.Finding.{Matches}
use minhq.Hc.Table.Capacity.{total-length}
use minhq.Hc.HpackTable.{hpack_index}
use minhq.Hc.HpackTable.Indices.{Stands, hpack_index-bounds, hpack_get-hpack_index}
use minhq.Hc.HpackDecoder.{read_name, read_name_value}
use minhq.Hc.HpackDecoder.ReadBack.{read_name-entry, read_name-string, read_name_value-Takes}
use minhq.Hc.HpackEncoder.{HpackEncoder, write_name, write_name_value}
use mathlib.Core.List.{append_assoc}

-- A string of bytes that `WriteStringRaw` and `ReadString` carry over.
pub record IsCarried (c : HuffmanCodingChoice) (s : List ℕ) : Type 0 where
  pub octets : All IsByte s
  pub short : length s < 2 ^ 58
  pub readable : IsReadable c s

-- Whole octets, less `prefix` bits in front that are already written.
abbrev pub Octets : ℕ → List ℕ → Type 0
Octets bits_before bits = (k : ℕ) × (bits_before + length bits ≡ 8 * k)

string-Travels :
    (c : HuffmanCodingChoice) (s : List ℕ)
    → IsCarried c s
    → (bits : List ℕ) × Octets 0 bits × Travels bits (write_string_raw s 7 c) (read_string 7) s
string-Travels c s h =
    let (hbit, p, t) =
      read_string-Travels c s 7 h.octets h.short (omega arith) (omega arith) h.readable in
    let (k, e) = length-int_bits 7 (length p) in
    (
      string_bits 7 hbit p,
      (
        1 + k + length p,
        omega (
          arith,
          length-append (bits_of 1 hbit ++ int_bits 7 (length p)) (byte_bits p),
          length-append (bits_of 1 hbit) (int_bits 7 (length p)),
          length-bits_of 1 hbit,
          length-byte_bits p,
          e,
        ),
      ),
      t,
    )

-- The capacity bounds the number of entries, and this their indices.
pub record IsSound (t : TableCommon) : Type 0 where
  pub valid : IsValid t
  pub small : t.capacity < 2 ^ 63

pub index-small : (t : TableCommon) (e : Entry) → IsSound t → Stands t e → hpack_index e t < 2 ^ 63
index-small t e s at =
    let (positive, most) = hpack_index-bounds t e s.valid.numbered at in
    omega (arith, most, total-length t.dynamic, s.valid.accounted, s.valid.fits, s.small)

-- A name and a value behind `prefix` bits.
abbrev pub Named : ℕ → HeaderField → Option Entry → HpackEncoder → Type 0
Named prefix h entry e =
    (bits : List ℕ) × Octets (8 - prefix) bits
    × Travels bits (write_name_value h entry prefix e) (read_name_value e.table prefix)
        (h.name, h.value)

pub name_value-Named :
    (prefix : ℕ) (h : HeaderField) (entry : Option Entry) (e : HpackEncoder)
    → 1 ≤ prefix
    → prefix ≤ 8
    → IsSound e.table
    → IsCarried e.huffman_preference h.name
    → IsCarried e.huffman_preference h.value
    → Matches h.name hpack_static_table e.table.dynamic entry
    → Named prefix h entry e
unfolding write_name_value write_name
name_value-Named prefix h none e low high sound name_carried value_carried m =
    let (nb, (j, n), name) = string-Travels e.huffman_preference h.name name_carried in
    let (vb, (l, v), value) = string-Travels e.huffman_preference h.value value_carried in
    let (k, i) = length-int_bits prefix 0 in
    (
      int_bits prefix 0 ++ (nb ++ vb),
      (
        1 + j + l + k,
        omega (arith, length-append (int_bits prefix 0) (nb ++ vb), length-append nb vb, n, v, i),
      ),
      record {
        wrote =
            subst (λ x. Puts x (write_name_value h none prefix e))
              (append_assoc (int_bits prefix 0) nb vb)
              (>>-Puts (int_bits prefix 0 ++ nb) vb (write_name h none prefix e)
                (write_string_raw h.value 7 e.huffman_preference)
                (>>-Puts (int_bits prefix 0) nb (write_int 0 prefix)
                  (write_string_raw h.name 7 e.huffman_preference)
                  (λ bw u. write_int-Wrote 0 prefix bw (omega arith) low high u) name.wrote)
                value.wrote);
        gives =
            read_name_value-Takes e.table prefix 0 nb vb h.name h.value (omega arith) low high
              (read_name-string e.table nb h.name name.gives) value.gives;
      },
    )
name_value-Named prefix h (some entry) e low high sound name_carried value_carried (at, same) =
    let (vb, (l, v), value) = string-Travels e.huffman_preference h.value value_carried in
    let index = hpack_index entry e.table in
    let (k, i) = length-int_bits prefix index in
    let (positive, most) = hpack_index-bounds e.table entry sound.valid.numbered at in
    let small = index-small e.table entry sound at in
    (
      int_bits prefix index ++ vb,
      (1 + l + k, omega (arith, length-append (int_bits prefix index) vb, v, i)),
      record {
        wrote =
            >>-Puts (int_bits prefix index) vb (write_int index prefix)
              (write_string_raw h.value 7 e.huffman_preference)
              (λ bw u. write_int-Wrote index prefix bw (omega arith) low high u) value.wrote;
        gives =
            read_name_value-Takes e.table prefix index [] vb h.name h.value small low high
              (subst (λ n. Takes [] (read_name e.table index) n) same
                (read_name-entry e.table index entry positive
                  (hpack_get-hpack_index e.table entry sound.valid.numbered at)))
              value.gives;
      },
    )
