-- ===== src/Hc/Strings/Plain.antt =====
-- Plain strings, written and read.
use minhq.Base.{
  ◌==◌, if◌then◌else◌, ℕ, ◌^◌, ◌≤◌, ◌<◌, ◌≡◌, refl, ap, ◌∙◌, List, [], ◌∷◌, ◌++◌, none, ok, arith,
  ltb, le→ltb_false, le→leb_false, false, length, All,
}
use minhq.Base.Words.{IsByte}
use minhq.Base.Bits.{bits_of}
use minhq.Io.BitWriter.{BitWriter, ◌>>◌, write_bit}
use minhq.Io.BitWriter.View.{byte_bits}
use minhq.Io.BitWriter.Wrote.{IsHealthy, Wrote, write_bit-Wrote, >>-Wrote}
use minhq.Io.BitWriter.Slices.{write-Sent}
use minhq.Io.BitReader.{BitReader, read_bit, read_byte}
use minhq.Io.BitReader.View.{IsValid, view}
use minhq.Io.BitReader.Gives.{Gives, read_bit-Gives, read_byte-Gives}
use minhq.Hc.Integers.{read_int}
use minhq.Hc.Integers.RoundTrip.{read_int-Gives}
use minhq.Hc.Integers.{write_int}
use minhq.Hc.Integers.Bits.{int_bits, write_int-Wrote}
use minhq.Hc.Strings.{
  huffman_coding_never, encode_string, write_payload, write_string_raw, read_full, full_string,
  read_plain, read_string, read_compressed,
}
use mathlib.Core.List.{append_assoc}

-- The bits of a string: the Huffman bit, the length, the bytes.
abbrev pub string_bits : ℕ → ℕ → List ℕ → List ℕ
string_bits prefix hbit p = bits_of 1 hbit ++ int_bits prefix (length p) ++ byte_bits p

pub write_payload-Wrote :
    (p : List ℕ) (bw : BitWriter)
    → IsHealthy bw
    → All IsByte p
    → Wrote (byte_bits p) bw (write_payload p bw)
unfolding write_payload
write_payload-Wrote p bw u h =
    let w = write-Sent p bw u h in
    let whole : ltb (length p) (length p) ≡ false =
      le→ltb_false (length p) (length p) (omega arith) in
    rw (w.no_error, write_payload, w.count, whole)
      (record { healthy = w.healthy; no_error = refl; appended = w.appended })

-- What `WriteStringRaw` writes, once it has chosen the form.
pub write_form-Wrote :
    (hbit : ℕ) (p : List ℕ) (prefix : ℕ) (bw : BitWriter)
    → hbit < 2
    → All IsByte p
    → length p < 2 ^ 63
    → 1 ≤ prefix
    → prefix ≤ 8
    → IsHealthy bw
    → Wrote
        (string_bits prefix hbit p)
        bw
        ((write_bit hbit >> write_int (length p) prefix >> write_payload p) bw)
write_form-Wrote hbit p prefix bw one h short low high u =
    >>-Wrote (bits_of 1 hbit ++ int_bits prefix (length p)) (byte_bits p)
      (write_bit hbit >> write_int (length p) prefix) (write_payload p) bw
      (>>-Wrote (bits_of 1 hbit) (int_bits prefix (length p)) (write_bit hbit)
        (write_int (length p) prefix) bw (write_bit-Wrote hbit bw u one)
        (λ bw' u'. write_int-Wrote (length p) prefix bw' (omega arith) low high u'))
      (λ bw' u'. write_payload-Wrote p bw' u' h)

-- `WriteStringRaw` without Huffman coding, of a string of fewer than 2^63 bytes with a length
-- prefix of 1 to 8 bits, on a writer whose transport accepts, reports no error and appends a 0
-- bit, the length and the bytes.
pub write_string_raw-Wrote :
    (s : List ℕ) (prefix : ℕ) (bw : BitWriter)
    → All IsByte s
    → length s < 2 ^ 63
    → 1 ≤ prefix
    → prefix ≤ 8
    → IsHealthy bw
    → Wrote (string_bits prefix 0 s) bw (write_string_raw s prefix huffman_coding_never bw)
unfolding write_string_raw encode_string
write_string_raw-Wrote s prefix bw h short low high u =
    write_form-Wrote 0 s prefix bw (omega arith) h short low high u

pub read_full-takes :
    (s rest : List ℕ) (r : BitReader)
    → All IsByte s
    → IsValid r
    → view r ≡ byte_bits s ++ rest
    → ((read_full (length s) r).1 ≡ s)
      × ((read_full (length s) r).2 ≡ none)
      × Gives r.source.stop rest s ((read_full (length s) r).0, ok s)
unfolding read_full
read_full-takes [] rest r h v e =
    (refl, refl, record { valid = v; stops = refl; value = refl; left = e })
read_full-takes (b ∷ s) rest r h v e =
    let g =
      read_byte-Gives b r (byte_bits s ++ rest) v h.0
        (e ∙ append_assoc (bits_of 8 b) (byte_bits s) rest) in
    let (same, no_error, last) = read_full-takes s rest (read_byte r).0 h.1 g.valid g.left in
    rw (g.value, read_full)
      (
        ap (◌∷◌ b) same,
        no_error,
        record { valid = last.valid; stops = last.stops ∙ g.stops; value = refl; left = last.left },
      )

pub read_plain-Gives :
    (s rest : List ℕ) (r : BitReader)
    → All IsByte s
    → length s < 2 ^ 63
    → IsValid r
    → view r ≡ byte_bits s ++ rest
    → Gives r.source.stop rest s (read_plain (length s) r)
unfolding read_plain full_string
read_plain-Gives s rest r h short v e =
    let (same, no_error, last) = read_full-takes s rest r h v e in
    rw (le→leb_false (2 ^ 63) (length s) short, read_plain, no_error, same)
      (record { valid = last.valid; stops = last.stops; value = refl; left = last.left })

-- `ReadString` in front of either form, if the part behind the length is read.
pub read_form-Gives :
    (hbit : ℕ) (p s rest : List ℕ) (prefix : ℕ) (r : BitReader)
    → hbit < 2
    → length p < 2 ^ 63
    → 1 ≤ prefix
    → prefix ≤ 8
    → IsValid r
    → view r ≡ string_bits prefix hbit p ++ rest
    → ((r' : BitReader)
        → IsValid r'
        → view r' ≡ byte_bits p ++ rest
        → Gives r'.source.stop rest s
            (if hbit == 0 then read_plain (length p) r' else read_compressed (length p) r'))
    → Gives r.source.stop rest s (read_string prefix r)
unfolding read_string
read_form-Gives hbit p s rest prefix r one short low high v e behind =
    rw (bit.value, read_string, int.value)
      (record {
        valid = last.valid;
        stops = last.stops ∙ int.stops ∙ bit.stops;
        value = last.value;
        left = last.left;
      })
  where
    behind_bit : List ℕ
    behind_bit = int_bits prefix (length p) ++ (byte_bits p ++ rest)

    bit : Gives r.source.stop behind_bit hbit (read_bit r)
    bit = read_bit-Gives hbit r behind_bit v one (
        e
        ∙ append_assoc (bits_of 1 hbit ++ int_bits prefix (length p)) (byte_bits p) rest
        ∙ append_assoc (bits_of 1 hbit) (int_bits prefix (length p)) (byte_bits p ++ rest))

    int :
        Gives
          (read_bit r).0.source.stop
          (byte_bits p ++ rest)
          (length p)
          (read_int prefix (read_bit r).0)
    int =
        read_int-Gives (length p) prefix (read_bit r).0 (byte_bits p ++ rest) (omega arith) low high
          bit.valid bit.left

    last : Gives (read_int prefix (read_bit r).0).0.source.stop rest s (
        if hbit == 0
        then read_plain (length p) (read_int prefix (read_bit r).0).0
        else read_compressed (length p) (read_int prefix (read_bit r).0).0)
    last = behind (read_int prefix (read_bit r).0).0 int.valid int.left

-- `ReadString`, on a valid reader in front of a string that is not Huffman coded, of fewer than
-- 2^63 bytes and with a length prefix of 1 to 8 bits, returns the string and takes exactly its
-- bits.
pub read_string-Gives :
    (s rest : List ℕ) (prefix : ℕ) (r : BitReader)
    → All IsByte s
    → length s < 2 ^ 63
    → 1 ≤ prefix
    → prefix ≤ 8
    → IsValid r
    → view r ≡ string_bits prefix 0 s ++ rest
    → Gives r.source.stop rest s (read_string prefix r)
read_string-Gives s rest prefix r h short low high v e =
    read_form-Gives 0 s s rest prefix r (omega arith) short low high v e
      (λ r' u same. read_plain-Gives s rest r' h short u same)
