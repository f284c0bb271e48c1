-- ===== src/Hc/Strings/RoundTrip.antt =====
-- `WriteStringRaw` and `ReadString` together.
use minhq.Base.{
  ℕ, ◌^◌, ◌≤◌, ◌<◌, ◌≡◌, ◌≢◌, ◌⊎◌, refl, inl, inr, List, [], ◌∷◌, ok, arith, Bool-cases, ltb,
  ltb→lt, length, All,
}
use minhq.Base.Words.{IsByte}
use minhq.Io.BitWriter.{BitWriter, ◌>>◌, write_bit}
use minhq.Io.BitWriter.Wrote.{Wrote}
use minhq.Hc.Integers.{write_int}
use minhq.Io.Travels.{Travels}
use minhq.Hc.Strings.{
  HuffmanCodingChoice, huffman_coding_auto, huffman_coding_always, huffman_coding_never,
  encode_string, write_payload, write_string_raw, read_string,
}
use minhq.Hc.Strings.Plain.{string_bits, write_form-Wrote, read_form-Gives, read_plain-Gives}
use minhq.Hc.Strings.Compressed.{
  IsHuffman, IsHuffman-sizes, huffman_encode-IsHuffman, read_compressed-Gives,
}

-- The bytes behind the length: the string, or the Huffman code of a string that is not empty.
abbrev pub IsForm : List ℕ → ℕ → List ℕ → Type 0
IsForm s hbit p = ((hbit ≡ 0) × (p ≡ s)) ⊎ ((hbit ≡ 1) × IsHuffman s p × (s ≢ []))

-- The empty string is not put into the Huffman code, unless that is always wanted.
abbrev pub IsReadable : HuffmanCodingChoice → List ℕ → Type 0
IsReadable huffman_coding_always s = s ≢ []
IsReadable huffman_coding_auto s = Unit {0}
IsReadable huffman_coding_never s = Unit {0}

shorter-nonempty : (p s : List ℕ) → length p < length s → s ≢ []
shorter-nonempty p [] h = absurd (omega arith)
shorter-nonempty p (c ∷ s) h = λ e. cc

encode_string-IsForm :
    (c : HuffmanCodingChoice) (s : List ℕ)
    → All IsByte s
    → IsReadable c s
    → (hbit : ℕ) × (p : List ℕ) × (encode_string c s ≡ ok (hbit, p)) × IsForm s hbit p
unfolding encode_string
encode_string-IsForm huffman_coding_never s h readable = (0, s, refl, inl (refl, refl))
encode_string-IsForm huffman_coding_always s h readable =
    let (p, e, w) = huffman_encode-IsHuffman s h in
    (1, p, rw (e, encode_string) refl, inr (refl, w, readable))
encode_string-IsForm huffman_coding_auto s h readable =
    let (p, e, w) = huffman_encode-IsHuffman s h in
    elim (Bool-cases (ltb (length p) (length s))) [
      | inl less ↦ (
        1,
        p,
        rw (e, encode_string, less) refl,
        inr (refl, w, shorter-nonempty p s (ltb→lt _ _ less)),
      )
      | inr more ↦ (0, s, rw (e, encode_string, more) refl, inl (refl, refl))
    ]

chosen-Wrote :
    (c : HuffmanCodingChoice) (s p : List ℕ) (prefix hbit : ℕ) (bw : BitWriter)
    → encode_string c s ≡ ok (hbit, p)
    → Wrote
        (string_bits prefix hbit p)
        bw
        ((write_bit hbit >> write_int (length p) prefix >> write_payload p) bw)
    → Wrote (string_bits prefix hbit p) bw (write_string_raw s prefix c bw)
unfolding write_string_raw
chosen-Wrote c s p prefix hbit bw e w = rw (e, write_string_raw) w

-- For any choice of coding, a string of fewer than 2^58 bytes, not empty if Huffman coding is
-- always wanted, and a length prefix of 1 to 8 bits, `ReadString` reads the string that
-- `WriteStringRaw` wrote on a transport that accepts, and takes exactly its bits.
pub read_string-Travels :
    (c : HuffmanCodingChoice) (s : List ℕ) (prefix : ℕ)
    → All IsByte s
    → length s < 2 ^ 58
    → 1 ≤ prefix
    → prefix ≤ 8
    → IsReadable c s
    → (hbit : ℕ) × (p : List ℕ) × Travels
        (string_bits prefix hbit p)
        (write_string_raw s prefix c)
        (read_string prefix)
        s
read_string-Travels c s prefix h short low high readable =
    let (hbit, p, e, form) = encode_string-IsForm c s h readable in
    elim form [
      | inl (plain, same) ↦ (
        0,
        s,
        record {
          wrote = λ bw u.
              chosen-Wrote c s s prefix 0 bw (rw (plain, same) at e)
                (write_form-Wrote 0 s prefix bw (omega arith) h (omega arith) low high u);
          gives = λ r rest u view.
              read_form-Gives 0 s s rest prefix r (omega arith) (omega arith) low high u view
                (λ r' u' view'. read_plain-Gives s rest r' h (omega arith) u' view');
        },
      )
      | inr (coded, w, nonempty) ↦
          let (few, most) = IsHuffman-sizes s p h w in
          (
            1,
            p,
            record {
              wrote = λ bw u.
                  chosen-Wrote c s p prefix 1 bw (rw coded at e) (
                    write_form-Wrote 1 p prefix bw (omega arith) w.octets (omega arith) low high u);
              gives = λ r rest u view.
                  read_form-Gives 1 p s rest prefix r (omega arith) (omega arith) low high u view
                    (λ r' u' view'. read_compressed-Gives s p rest r' h short nonempty w u' view');
            },
          )
    ]
