-- ===== src/Hc/Huffman/Ending.antt =====
-- The end of a compressed string: fewer than eight ones, which no code is a part of.
use minhq.Base.{
  ℕ, zero, suc, ◌*◌, ◌≤◌, ◌<◌, ◌≡◌, refl, ap, subst, ◌∙◌, inl, inr, List, [], ◌∷◌, ◌++◌, Bool, true,
  false, some, Error, Result, err, arith, length, length-append, get_elem?, All,
}
use minhq.Base.Words.{IsByte}
use minhq.Base.Bits.{bits_of, length-bits_of}
use minhq.Io.BitReader.{BitReader, read_bit}
use minhq.Io.BitReader.View.{view, IsValid}
use minhq.Io.BitReader.Reads.{read_bit-Took}
use minhq.Io.BitReader.Gives.{read_bit-Gives}
use minhq.Io.BitWriter.View.{byte_bits}
use minhq.Io.BitWriter.Padding.{ones_of}
use minhq.Hc.HuffmanTable.{huffman_table}
use minhq.Hc.Huffman.{
  decompress, enter, next_symbol, HuffmanDecompressor, HuffmanDecoderNode, absent, leaf, layer,
  decompressor_tree,
}
use minhq.Hc.Huffman.Codes.{byte-Decodes}
use minhq.Hc.Huffman.RoundTrip.{huffman_bits, code_of, next_symbol-Emits, root-not_absent}
use mathlib.Core.List.{append_assoc}

ones_list : ℕ → List ℕ
ones_list zero = []
ones_list (suc k) = 1 ∷ ones_list k

ones_of-ones_list : (k : ℕ) → k < 8 → ones_of k ≡ ones_list k
unfolding bits_of ones_list
ones_of-ones_list zero h = refl
ones_of-ones_list (suc zero) h = refl
ones_of-ones_list (suc (suc zero)) h = refl
ones_of-ones_list (suc (suc (suc zero))) h = refl
ones_of-ones_list (suc (suc (suc (suc zero)))) h = refl
ones_of-ones_list (suc (suc (suc (suc (suc zero))))) h = refl
ones_of-ones_list (suc (suc (suc (suc (suc (suc zero)))))) h = refl
ones_of-ones_list (suc (suc (suc (suc (suc (suc (suc zero))))))) h = refl
ones_of-ones_list (suc (suc (suc (suc (suc (suc (suc (suc k)))))))) h = absurd (omega arith)

-- As many ones lead from a node to a node that is neither nil nor a leaf.
goes_on : HuffmanDecoderNode → ℕ → Bool
goes_on absent k = false
goes_on (leaf v) k = false
goes_on (layer a b) zero = true
goes_on (layer a b) (suc k) = goes_on b k

root-goes_on : (k : ℕ) → k < 8 → goes_on decompressor_tree k ≡ true
unfolding goes_on decompressor_tree
root-goes_on zero h = refl
root-goes_on (suc zero) h = refl
root-goes_on (suc (suc zero)) h = refl
root-goes_on (suc (suc (suc zero))) h = refl
root-goes_on (suc (suc (suc (suc zero)))) h = refl
root-goes_on (suc (suc (suc (suc (suc zero))))) h = refl
root-goes_on (suc (suc (suc (suc (suc (suc zero)))))) h = refl
root-goes_on (suc (suc (suc (suc (suc (suc (suc zero))))))) h = refl
root-goes_on (suc (suc (suc (suc (suc (suc (suc (suc k)))))))) h = absurd (omega arith)

-- The decompressor reports the error of its source, which it has read to the end.
pub record RunsOut (stop : Error) (r : HuffmanDecompressor × Result ℕ) : Type 0 where
  pub stopped : r.1 ≡ err stop
  pub drained : r.0.reader.source.bytes ≡ []

no_bytes : (bytes : List ℕ) → length (byte_bits bytes) ≡ 0 → bytes ≡ []
no_bytes [] h = refl
no_bytes (b ∷ bytes) h =
    absurd (omega (arith, length-append (bits_of 8 b) (byte_bits bytes), length-bits_of 8 b))

read_bit-RunsOut :
    (r : BitReader)
    → IsValid r
    → view r ≡ []
    → ((read_bit r).1 ≡ err r.source.stop) × ((read_bit r).0.source.bytes ≡ [])
read_bit-RunsOut r u e = elim (read_bit-Took r u).2 [
  | inl (w, taken, small, parts) ↦ absurd (
      omega (
        arith,
        ap length e,
        ap length parts,
        length-append (bits_of 1 w) (view (read_bit r).0),
        length-bits_of 1 w,
      ))
  | inr (failed, same, short) ↦
      let r' = (read_bit r).0 in
      (
        failed,
        no_bytes r'.source.bytes (
            omega (
              arith,
              ap length e,
              ap length same,
              length-append (bits_of r'.saved_bits r'.saved) (byte_bits r'.source.bytes),
            )),
      )
]

enter-RunsOut :
    (n : HuffmanDecoderNode) (k : ℕ) (r : BitReader)
    → IsValid r
    → goes_on n k ≡ true
    → view r ≡ ones_list k
    → RunsOut r.source.stop (enter n r)
unfolding goes_on enter bits_of ones_list
enter-RunsOut absent k r u g e = cc
enter-RunsOut (leaf v) k r u g e = cc
enter-RunsOut (layer a b) zero r u g e =
    let (failed, out) = read_bit-RunsOut r u e in
    rw (failed, enter) (record { stopped = refl; drained = out })
enter-RunsOut (layer a b) (suc k) r u g e =
    let one = read_bit-Gives 1 r (ones_list k) u (omega arith) e in
    rw (one.value, enter)
      (subst (λ stop. RunsOut stop (enter b (read_bit r).0)) one.stops
        (enter-RunsOut b k (read_bit r).0 one.valid g one.left))

next_symbol-RunsOut :
    (k : ℕ) (d : HuffmanDecompressor)
    → k < 8
    → IsValid d.reader
    → d.cursor ≡ decompressor_tree
    → view d.reader ≡ ones_list k
    → RunsOut d.reader.source.stop (next_symbol d)
unfolding next_symbol
next_symbol-RunsOut k d few u root e =
    rw (root, next_symbol, root-not_absent)
      (enter-RunsOut decompressor_tree k d.reader u (root-goes_on k few) e)

-- `Read` into a slice that is longer than the string gives the string, and the error behind its end.
pub decompress-ends :
    (s : List ℕ) (k m : ℕ) (d : HuffmanDecompressor)
    → All IsByte s
    → k < 8
    → IsValid d.reader
    → d.cursor ≡ decompressor_tree
    → view d.reader ≡ huffman_bits s ++ ones_of k
    → length s < m
    → ((decompress m d).1 ≡ s)
      × ((decompress m d).2 ≡ some d.reader.source.stop)
      × ((decompress m d).0.reader.source.bytes ≡ [])
unfolding decompress huffman_bits
decompress-ends s k zero d h few u root e longer = absurd (omega arith)
decompress-ends [] k (suc m) d h few u root e longer =
    let out = next_symbol-RunsOut k d few u root (e ∙ ones_of-ones_list k few) in
    rw (out.stopped, decompress) (refl, refl, out.drained)
decompress-ends (c ∷ s) k (suc m) d h few u root e longer =
    let first =
      next_symbol-Emits c (huffman_bits s ++ ones_of k) d h.0 u root
        (e ∙ append_assoc (code_of (get_elem? huffman_table c)) (huffman_bits s) (ones_of k)) in
    let (same, ended, drained) =
      decompress-ends s k m (next_symbol d).0 h.1 few first.valid first.at_root first.left
        (omega arith) in
    rw (first.value, decompress) (ap (◌∷◌ c) same, ended ∙ ap some first.stops, drained)

-- A code has at least five bits, and at most thirty.
pub length-huffman_bits :
    (s : List ℕ)
    → All IsByte s
    → (5 * length s ≤ length (huffman_bits s)) × (length (huffman_bits s) ≤ 30 * length s)
unfolding huffman_bits
length-huffman_bits [] h = (omega arith, omega arith)
length-huffman_bits (c ∷ s) h =
    let (e, at, d) = byte-Decodes c h.0 in
    let (low, high) = length-huffman_bits s h.1 in
    let sum = length-append (bits_of e.len e.val) (huffman_bits s) in
    rw at (
      omega (arith, sum, length-bits_of e.len e.val, d.long, low),
      omega (arith, sum, length-bits_of e.len e.val, d.short, high),
    )
