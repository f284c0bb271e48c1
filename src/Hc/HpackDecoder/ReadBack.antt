-- ===== src/Hc/HpackDecoder/ReadBack.antt =====
-- What the decoder makes of the representations of header fields.
use minhq.Base.{ℕ, ◌^◌, ◌≤◌, ◌<◌, ◌≡◌, refl, List, [], ◌++◌, false, some, arith, ◌==◌}
use minhq.Base.Names.{Name}
use minhq.Base.Bits.{bits_of}
use minhq.Io.BitReader.{BitReader, Reads, ◌>>=◌, pure, read_bit}
use minhq.Io.BitReader.View.{view, IsValid}
use minhq.Io.BitReader.Gives.{Gives, read_bit-Gives}
use minhq.Io.Travels.{Takes, >>=-Takes, step-Takes}
use minhq.Hc.Integers.{read_index}
use minhq.Hc.Integers.Bits.{int_bits}
use minhq.Hc.Integers.RoundTrip.{read_index-Gives}
use minhq.Hc.Strings.{read_string}
use minhq.Hc.Headers.{HeaderField}
use minhq.Hc.Table.{TableCommon, Entry, entry_name, entry_value}
use minhq.Hc.HpackTable.{hpack_get}
use minhq.Hc.HpackDecoder.{
  get_entry, read_indexed, read_name, read_name_value, read_literal, Decodes, decoding,
}

-- The bits are read as `a`, and the table becomes `t'`.
abbrev pub Receives {ℓ} : {A : Type ℓ} → List ℕ → TableCommon → TableCommon → A → Decodes A → Type ℓ
Receives bits t t' a d =
    (r : BitReader) (rest : List ℕ)
    → IsValid r
    → view r ≡ bits ++ rest
    → ((d t r).0 ≡ t') × Gives r.source.stop rest a ((d t r).1, (d t r).2)

read_index-Takes :
    (i prefix : ℕ)
    → i < 2 ^ 63
    → 1 ≤ prefix
    → prefix ≤ 8
    → Takes (int_bits prefix i) (read_index prefix) i
read_index-Takes i prefix small low high r rest u e =
    read_index-Gives i prefix r rest small low high u e

abbrev pub indexed_field : Entry → HeaderField
indexed_field e = record { name = entry_name e; value = entry_value e; sensitive = false }

pub read_indexed-Takes :
    (t : TableCommon) (i : ℕ) (e : Entry)
    → i < 2 ^ 63
    → hpack_get i t ≡ some e
    → Takes (int_bits 7 i) (read_indexed t) (indexed_field e)
unfolding read_indexed get_entry
read_indexed-Takes t i e small at =
    step-Takes (int_bits 7 i) (read_index 7)
      (λ index. get_entry t index >>= λ entry. pure (indexed_field entry)) i (indexed_field e)
      (read_index-Takes i 7 small (omega arith) (omega arith)) (λ r. rw (at, get_entry) refl)

-- Behind the index, `nb` is read as the name.
abbrev pub Names : TableCommon → ℕ → List ℕ → Name → Type 0
Names t i nb name = Takes nb (read_name t i) name

pub read_name-entry :
    (t : TableCommon) (i : ℕ) (e : Entry)
    → 0 < i
    → hpack_get i t ≡ some e
    → Takes [] (read_name t i) (entry_name e)
unfolding read_name get_entry
read_name-entry t i e positive at r rest u v =
    let later : (i == 0) ≡ false = ground arith in
    rw (later, read_name, at, get_entry)
      (record { valid = u; stops = refl; value = refl; left = v })

pub read_name-string :
    (t : TableCommon) (nb : List ℕ) (name : Name)
    → Takes nb (read_string 7) name
    → Takes nb (read_name t 0) name
unfolding read_name
read_name-string t nb name h = h

pub read_name_value-Takes :
    (t : TableCommon) (prefix i : ℕ) (nb vb : List ℕ) (name value : Name)
    → i < 2 ^ 63
    → 1 ≤ prefix
    → prefix ≤ 8
    → Takes nb (read_name t i) name
    → Takes vb (read_string 7) value
    → Takes (int_bits prefix i ++ (nb ++ vb)) (read_name_value t prefix) (name, value)
unfolding read_name_value
read_name_value-Takes t prefix i nb vb name value small low high named valued =
    >>=-Takes (int_bits prefix i) (nb ++ vb) (read_index prefix)
      (λ index. read_name t index >>= λ n. read_string 7 >>= λ v. pure (n, v)) i (name, value)
      (read_index-Takes i prefix small low high)
      (>>=-Takes nb vb (read_name t i) (λ n. read_string 7 >>= λ v. pure (n, v)) name (name, value)
        named
        (step-Takes vb (read_string 7) (λ v. pure (name, v)) value (name, value) valued
          (λ r. refl)))

read_bit-Takes : (v : ℕ) → v < 2 → Takes (bits_of 1 v) read_bit v
read_bit-Takes v h r rest u e = read_bit-Gives v r rest u h e

abbrev pub literal_field : Name × Name → ℕ → HeaderField
literal_field nv ni = record { name = nv.0; value = nv.1; sensitive = ni == 1 }

pub read_literal-Takes :
    (t : TableCommon) (ni : ℕ) (bits : List ℕ) (name value : Name)
    → ni < 2
    → Takes bits (read_name_value t 4) (name, value)
    → Takes (bits_of 1 ni ++ bits) (read_literal t) (literal_field (name, value) ni)
unfolding read_literal
read_literal-Takes t ni bits name value h named =
    >>=-Takes (bits_of 1 ni) bits read_bit
      (λ b. read_name_value t 4 >>= λ nv. pure (literal_field nv b)) ni
      (literal_field (name, value) ni) (read_bit-Takes ni h)
      (step-Takes bits (read_name_value t 4) (λ nv. pure (literal_field nv ni)) (name, value)
        (literal_field (name, value) ni) named (λ r. refl))

-- From the read to the table.
pub decoding-Receives {ℓ κ} :
    {A : Type ℓ} {B : Type κ} (bits : List ℕ) (t : TableCommon) (m : TableCommon → Reads A)
    (f : A → TableCommon → TableCommon × B) (a : A)
    → Takes bits (m t) a
    → Receives bits t (f a t).0 (f a t).1 (decoding m f)
decoding-Receives bits t m f a h r rest u e =
    let s = h r rest u e in
    rw (s.value, decoding)
      (refl, record { valid = s.valid; stops = s.stops; value = refl; left = s.left })
