-- ===== src/Hc/Strings/Compressed.antt =====
-- Strings in the Huffman code, written and read.
use minhq.Base.{
  ℕ, ◌+◌, ◌*◌, ◌-◌, ◌/◌, ◌^◌, ◌≤◌, ◌<◌, ◌≡◌, ◌≢◌, refl, sym, ap, ◌∙◌, List, [], ◌∷◌, ◌++◌, false,
  Option, none, some, Error, ok, arith, ltb, le→ltb_false, le→leb_false, length, length-append, All,
}
use minhq.Base.Words.{IsByte, u64}
use minhq.Base.Bits.{bits_of, length-bits_of}
use minhq.Io.BitReader.{BitReader}
use minhq.Io.BitReader.View.{view, IsValid}
use minhq.Io.BitReader.Gives.{Gives}
use minhq.Io.BitWriter.{BitWriter, pad}
use minhq.Io.BitWriter.View.{byte_bits}
use minhq.Io.BitWriter.Padding.{ones_of, pad-Padded, length-byte_bits}
use minhq.Io.BitWriter.Octets.{pad-SendsOctets}
use minhq.Hc.Huffman.{HuffmanDecompressor, compress, pad_compressed, decompressor_tree}
use minhq.Hc.Huffman.RoundTrip.{huffman_bits, compress-Sent}
use minhq.Hc.Huffman.Ending.{decompress-ends, length-huffman_bits}
use minhq.Hc.Strings.{
  empty_buffer, padded, huffman_encode, full_string, limited, from_limited, read_compressed,
}
use minhq.Hc.Strings.Plain.{read_full-takes}
use mathlib.Core.List.{append-nil}

-- The bytes are the Huffman codes of the string, filled up with fewer than eight ones.
pub record IsHuffman (s p : List ℕ) : Type 0 where
  pub count : ℕ
  pub few : count < 8
  pub codes : byte_bits p ≡ huffman_bits s ++ ones_of count
  pub octets : All IsByte p

padded-ok :
    (n l : ℕ) (r : BitWriter × Option Error)
    → r.1 ≡ none
    → ltb n l ≡ false
    → padded n l r ≡ ok r.0.sink.bytes
unfolding padded
padded-ok n l (bw, none) e whole = rw (whole, padded) refl
padded-ok n l (bw, some x) e whole = cc

-- The encoder's buffer takes everything, so there is no error.
pub huffman_encode-IsHuffman :
    (s : List ℕ) → All IsByte s → (p : List ℕ) × (huffman_encode s ≡ ok p) × IsHuffman s p
unfolding huffman_encode pad_compressed bits_of
huffman_encode-IsHuffman s h =
    let c =
      compress-Sent 0 s empty_buffer (record { small = omega arith; accepting = refl; octets = tt })
        h in
    let bw = (compress 0 s empty_buffer).0 in
    let q = pad-Padded bw c.healthy in
    let octets = pad-SendsOctets 0xff bw c.healthy.octets in
    let whole : ltb (compress 0 s empty_buffer).1 (length s) ≡ false =
      le→ltb_false (compress 0 s empty_buffer).1 (length s) (omega (arith, c.count)) in
    let sent : byte_bits (pad 0xff bw).0.sink.bytes ≡ huffman_bits s ++ ones_of q.count =
      sym (append-nil (byte_bits (pad 0xff bw).0.sink.bytes))
      ∙ (rw q.empty at q.appended)
      ∙ ap (λ x. x ++ ones_of q.count) c.appended in
    (
      (pad 0xff bw).0.sink.bytes,
      rw (c.no_error, huffman_encode)
          (padded-ok (compress 0 s empty_buffer).1 (length s) (pad 0xff bw) q.no_error whole),
      record { count = q.count; few = q.few; codes = sent; octets = octets },
    )

-- The sizes of a string and of its code.
pub IsHuffman-sizes :
    (s p : List ℕ)
    → All IsByte s
    → IsHuffman s p
    → (5 * length s ≤ 8 * length p) × (8 * length p ≤ 30 * length s + 7)
IsHuffman-sizes s p h w =
    let (low, high) = length-huffman_bits s h in
    let sum = length-append (huffman_bits s) (ones_of w.count) in
    (
      omega (
        arith,
        ap length w.codes,
        sum,
        length-byte_bits p,
        length-bits_of w.count (2 ^ w.count - 1),
        low,
      ),
      omega (
        arith,
        ap length w.codes,
        sum,
        length-byte_bits p,
        length-bits_of w.count (2 ^ w.count - 1),
        high,
        w.few,
      ),
    )

limited-takes :
    (p rest : List ℕ) (r : BitReader)
    → All IsByte p
    → length p < 2 ^ 63
    → IsValid r
    → view r ≡ byte_bits p ++ rest
    → limited (length p) r
      ≡ record { source = record { bytes = p; stop = Error.eof }; saved = 0; saved_bits = 0 }
unfolding limited
limited-takes p rest r h short u e =
    let (same, no_error, last) = read_full-takes p rest r h u e in
    rw (le→leb_false (2 ^ 63) (length p) short, same, no_error) refl

full_string-eof : (s : List ℕ) → s ≢ [] → full_string s (some Error.eof) ≡ ok s
unfolding full_string
full_string-eof [] h = absurd (h refl)
full_string-eof (b ∷ s) h = refl

-- A compressed string that is not empty is read back.
pub read_compressed-Gives :
    (s p rest : List ℕ) (r : BitReader)
    → All IsByte s
    → length s < 2 ^ 58
    → s ≢ []
    → IsHuffman s p
    → IsValid r
    → view r ≡ byte_bits p ++ rest
    → Gives r.source.stop rest s (read_compressed (length p) r)
unfolding read_compressed from_limited bits_of
read_compressed-Gives s p rest r h short some_bytes w u e =
    let (low, high) = IsHuffman-sizes s p h w in
    let start : BitReader = record {
      source = record { bytes = p; stop = Error.eof };
      saved = 0;
      saved_bits = 0;
    } in
    let d : HuffmanDecompressor = record { reader = start; cursor = decompressor_tree } in
    let (same, ended, drained) =
      decompress-ends s w.count (u64 (length p * 8) / 5 + 1) d h w.few
        (record { room = omega arith; octets = w.octets }) refl w.codes (omega arith) in
    let whole : length p - 0 ≡ length p = omega arith in
    let (all, no_error, last) = read_full-takes p rest r w.octets u e in
    rw
      (
        limited-takes p rest r w.octets (omega arith) u e,
        read_compressed,
        from_limited,
        drained,
        same,
        ended,
        whole,
        full_string-eof s some_bytes,
      )
      (record { valid = last.valid; stops = last.stops; value = refl; left = last.left })
