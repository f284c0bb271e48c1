-- ===== src/Hc/Huffman.antt =====
-- hc/huffman.go: the compressor, and the decompressor with the tree that it walks.
pub mod Codes
pub mod RoundTrip
pub mod Ending
use minhq.Base.{
  ℕ, zero, suc, ◌+◌, ◌-◌, ◌^◌, ◌%◌, List, [], ◌∷◌, Bool, true, false, ◌&&◌, ◌||◌, not, Option, none,
  some, Error, Result, ok, err, ltb, ◌==◌, get_elem?, if◌then◌else◌,
}
use minhq.Base.Words.{◌<<<◌, ◌>>>◌}
use minhq.Io.BitReader.{BitReader, read_bit}
use minhq.Io.BitWriter.{BitWriter, Counted, write_bits, pad}
use minhq.Hc.HuffmanTable.{HuffmanTableItem, huffman_table}
use Prim.Native.Nat.{bit_and, bit_or}

-- `HuffmanCompressor.Write` behind `i` bytes; a byte of 256 or more is not a byte.
pub compress : ℕ → List ℕ → BitWriter → Counted
compress i [] bw = (bw, i, none)
compress i (c ∷ input) bw = elim (get_elem? huffman_table c) [
  | none ↦ (bw, i, some Error.panicked)
  | some entry ↦
      let (bw', e) = write_bits entry.val entry.len bw in
      let rest = compress (i + 1) input bw' in elim e [ none ↦ rest | some x ↦ (bw', i, some x) ]
]

unfoldable pub pad_compressed : BitWriter → BitWriter × Option Error
pad_compressed bw = pad 0xff bw

-- A nil node, a leaf with its byte, or the two nodes below.
pub data HuffmanDecoderNode : Type 0 where
  absent : HuffmanDecoderNode
  leaf : ℕ → HuffmanDecoderNode
  layer : HuffmanDecoderNode → HuffmanDecoderNode → HuffmanDecoderNode

pub is_absent : HuffmanDecoderNode → Bool
is_absent absent = true
is_absent (leaf v) = false
is_absent (layer a b) = false

-- What the loop of `makeLayer` changes: the two nodes, and `found`.
pub record Layer : Type 0 where
  next_0 : HuffmanDecoderNode
  next_1 : HuffmanDecoderNode
  found : Bool

-- The code goes through the layer's prefix and on.
abbrev in_layer : ℕ → ℕ → HuffmanTableItem → Bool
in_layer prefix prefix_len e =
    not (ltb e.len (prefix_len + 1)) && e.val >>> (e.len - prefix_len) == prefix

put_leaf : ℕ → ℕ → Layer → Layer
put_leaf arity i lay =
    if arity == 0 then record lay { next_0 = leaf i } else record lay { next_1 = leaf i }

-- The loop of `makeLayer` from byte `i` on, and whether it returned from inside.
scan_table : ℕ → ℕ → ℕ → List HuffmanTableItem → Layer → Layer × Bool
scan_table prefix prefix_len i [] lay = (lay, false)
scan_table prefix prefix_len i (e ∷ es) lay =
    let arity = bit_and (e.val >>> (e.len - prefix_len - 1)) 1 in
    let here = in_layer prefix prefix_len e in
    let last = here && e.len == prefix_len + 1 in
    let lay' = if last then put_leaf arity i lay else lay in
    let full = last && not (is_absent (if arity == 0 then lay'.next_1 else lay'.next_0)) in
    let next : Layer = if here then record lay' { found = true } else lay' in
    let rest = scan_table prefix prefix_len (i + 1) es next in if full then (lay', true) else rest

-- `makeLayer` for the prefixes of at most `depth` bits more.
pub make_layer : ℕ → ℕ → ℕ → HuffmanDecoderNode
unfolding scan_table put_leaf is_absent
make_layer zero prefix prefix_len = absent
make_layer (suc depth) prefix prefix_len =
    let (lay, returned) =
      scan_table prefix prefix_len 0 huffman_table
        (record { next_0 = absent; next_1 = absent; found = false }) in
    let zeros = make_layer depth (prefix <<< 1 % 2 ^ 32) (prefix_len + 1) in
    let ones = make_layer depth (bit_or (prefix <<< 1 % 2 ^ 32) 1) (prefix_len + 1) in
    if returned || not lay.found
    then layer lay.next_0 lay.next_1
    else layer (if is_absent lay.next_0 then zeros else lay.next_0)
        (if is_absent lay.next_1 then ones else lay.next_1)

-- No code has more than 30 bits.
pub decompressor_tree : HuffmanDecoderNode
unfolding make_layer
decompressor_tree = make_layer 32 0 0

-- `cursor` is nil behind an invalid code, and a leaf never.
pub record HuffmanDecompressor : Type 0 where
  pub reader : BitReader
  pub cursor : HuffmanDecoderNode

-- The loop of `Read` from a node that it has come to, up to the next byte.
pub enter : HuffmanDecoderNode → BitReader → HuffmanDecompressor × Result ℕ
enter absent r = (record { reader = r; cursor = absent }, err Error.huffman_coding)
enter (leaf val) r = (record { reader = r; cursor = decompressor_tree }, ok val)
enter (layer a b) r =
    let (r', x) = read_bit r in
    let zero_side = enter a r' in
    let one_side = enter b r' in
    elim x [
      | err e ↦ (record { reader = r'; cursor = layer a b }, err e)
      | ok bit ↦ if bit == 0 then zero_side else one_side
    ]

-- A nil cursor is a panic.
pub next_symbol : HuffmanDecompressor → HuffmanDecompressor × Result ℕ
unfolding is_absent
next_symbol d = if is_absent d.cursor then (d, err Error.panicked) else enter d.cursor d.reader

-- `Read` into a slice of this length: the bytes that it decodes, and its error.
pub decompress : ℕ → HuffmanDecompressor → HuffmanDecompressor × List ℕ × Option Error
unfolding next_symbol
decompress zero d = (d, [], none)
decompress (suc n) d =
    let (d', x) = next_symbol d in
    let (d'', bytes, e) = decompress n d' in
    elim x [ err e' ↦ (d', [], some e') | ok b ↦ (d'', b ∷ bytes, e) ]
