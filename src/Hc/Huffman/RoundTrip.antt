-- ===== src/Hc/Huffman/RoundTrip.antt =====
-- Compressing and decompressing a string.
use minhq.Base.{
  ℕ, zero, suc, ◌+◌, ◌<◌, ◌≡◌, refl, sym, ap, subst, ◌∙◌, List, [], ◌∷◌, ◌++◌, Option, none, some,
  Error, Result, ok, arith, length, get_elem?, All, false,
}
use minhq.Base.Words.{IsByte}
use minhq.Base.Bits.{bits_of}
use minhq.Io.BitReader.{BitReader, read_bit}
use minhq.Io.BitReader.View.{view, IsValid}
use minhq.Io.BitReader.Gives.{read_bit-Gives}
use minhq.Io.BitWriter.{BitWriter, write_bits}
use minhq.Io.BitWriter.View
use minhq.Io.BitWriter.Wrote.{IsHealthy, Sent, write_bits-Wrote}
use minhq.Hc.HuffmanTable.{HuffmanTableItem, huffman_table}
use minhq.Hc.Huffman.{
  compress, decompress, enter, next_symbol, is_absent, HuffmanDecompressor, HuffmanDecoderNode,
  absent, leaf, layer, decompressor_tree,
}
use minhq.Hc.Huffman.Codes.{follow, byte-Decodes}
use mathlib.Core.List.{append_assoc, append-nil}

-- The code of a byte, and the codes of a string.
abbrev pub code_of : Option HuffmanTableItem → List ℕ
code_of none = []
code_of (some e) = bits_of e.len e.val

unfoldable pub huffman_bits : List ℕ → List ℕ
huffman_bits [] = []
huffman_bits (c ∷ s) = code_of (get_elem? huffman_table c) ++ huffman_bits s

-- `HuffmanCompressor.Write`, behind `i` bytes of a string, on a writer whose transport accepts,
-- appends the Huffman codes of the bytes, reports no error and returns their number and `i`.
pub compress-Sent :
    (i : ℕ) (s : List ℕ) (bw : BitWriter)
    → IsHealthy bw
    → All IsByte s
    → Sent (i + length s) (huffman_bits s) bw (compress i s bw)
unfolding compress huffman_bits
compress-Sent i [] bw u h = record {
  healthy = u;
  count = omega arith;
  no_error = refl;
  appended = sym (append-nil (View.view bw));
}
compress-Sent i (c ∷ s) bw u h =
    let (e, at, d) = byte-Decodes c h.0 in
    let first = write_bits-Wrote e.val e.len bw u (omega (arith, d.short)) d.fits in
    let rest = compress-Sent (i + 1) s (write_bits e.val e.len bw).0 first.healthy h.1 in
    rw (at, compress, first.no_error)
      (record {
        healthy = rest.healthy;
        count = rest.count ∙ omega arith;
        no_error = rest.no_error;
        appended =
            rest.appended
            ∙ ap (λ x. x ++ huffman_bits s) first.appended
            ∙ append_assoc (View.view bw) (bits_of e.len e.val) (huffman_bits s);
      })

-- The decompressor came to the byte `v`, is at the root, and leaves `rest`.
pub record Emits (stop : Error) (rest : List ℕ) (v : ℕ) (r : HuffmanDecompressor × Result ℕ)
    : Type 0 where
  pub valid : IsValid r.0.reader
  pub stops : r.0.reader.source.stop ≡ stop
  pub at_root : r.0.cursor ≡ decompressor_tree
  pub value : r.1 ≡ ok v
  pub left : view r.0.reader ≡ rest

enter-Emits :
    (n : HuffmanDecoderNode) (xs rest : List ℕ) (v : ℕ) (r : BitReader)
    → IsValid r
    → follow n xs ≡ some v
    → view r ≡ xs ++ rest
    → Emits r.source.stop rest v (enter n r)
unfolding follow enter bits_of
enter-Emits absent xs rest v r u f e = cc
enter-Emits (leaf w) [] rest v r u f e = record {
  valid = u;
  stops = refl;
  at_root = refl;
  value = cc;
  left = e;
}
enter-Emits (leaf w) (x ∷ xs) rest v r u f e = cc
enter-Emits (layer a b) [] rest v r u f e = cc
enter-Emits (layer a b) (zero ∷ xs) rest v r u f e =
    let g = read_bit-Gives 0 r (xs ++ rest) u (omega arith) e in
    rw (g.value, enter)
      (subst (λ stop. Emits stop rest v (enter a (read_bit r).0)) g.stops
        (enter-Emits a xs rest v (read_bit r).0 g.valid f g.left))
enter-Emits (layer a b) (suc zero ∷ xs) rest v r u f e =
    let g = read_bit-Gives 1 r (xs ++ rest) u (omega arith) e in
    rw (g.value, enter)
      (subst (λ stop. Emits stop rest v (enter b (read_bit r).0)) g.stops
        (enter-Emits b xs rest v (read_bit r).0 g.valid f g.left))
enter-Emits (layer a b) (suc (suc x) ∷ xs) rest v r u f e = cc

pub root-not_absent : is_absent decompressor_tree ≡ false
unfolding is_absent decompressor_tree
root-not_absent = refl

pub next_symbol-Emits :
    (c : ℕ) (rest : List ℕ) (d : HuffmanDecompressor)
    → c < 256
    → IsValid d.reader
    → d.cursor ≡ decompressor_tree
    → view d.reader ≡ code_of (get_elem? huffman_table c) ++ rest
    → Emits d.reader.source.stop rest c (next_symbol d)
unfolding next_symbol
next_symbol-Emits c rest d small u root e =
    let (entry, at, code) = byte-Decodes c small in
    let eq : view d.reader ≡ bits_of entry.len entry.val ++ rest = rw at at e in
    rw (root, next_symbol, root-not_absent)
      (enter-Emits decompressor_tree (bits_of entry.len entry.val) rest c d.reader u code.leads eq)

-- `HuffmanDecompressor.Read` into a slice of a string's length, from the root of the tree on a
-- valid reader in front of the Huffman codes of the string's bytes, gives the string back, takes
-- exactly its codes, reports no error and ends at the root.
pub decompress-huffman_bits :
    (s rest : List ℕ) (d : HuffmanDecompressor)
    → All IsByte s
    → IsValid d.reader
    → d.cursor ≡ decompressor_tree
    → view d.reader ≡ huffman_bits s ++ rest
    → ((decompress (length s) d).1 ≡ s)
      × ((decompress (length s) d).2 ≡ none)
      × ((decompress (length s) d).0.cursor ≡ decompressor_tree)
      × IsValid (decompress (length s) d).0.reader
      × (view (decompress (length s) d).0.reader ≡ rest)
unfolding decompress huffman_bits
decompress-huffman_bits [] rest d h u root e = (refl, refl, root, u, e)
decompress-huffman_bits (c ∷ s) rest d h u root e =
    let first =
      next_symbol-Emits c (huffman_bits s ++ rest) d h.0 u root
        (e ∙ append_assoc (code_of (get_elem? huffman_table c)) (huffman_bits s) rest) in
    let (same, no_error, root', u', left) =
      decompress-huffman_bits s rest (next_symbol d).0 h.1 first.valid first.at_root first.left in
    rw (first.value, decompress) (ap (◌∷◌ c) same, no_error, root', u', left)
