-- ===== src/Hc/Strings.antt =====
-- hc/io.go: HPACK strings, plain or in the Huffman code.
pub mod Plain
pub mod Compressed
pub mod RoundTrip
pub mod Progress
use minhq.Base.{
  ℕ, zero, suc, ◌+◌, ◌-◌, ◌*◌, ◌/◌, ◌^◌, List, [], ◌∷◌, Bool, true, false, ◌||◌, Option, none, some,
  Error, Result, ok, err, ltb, leb, ◌==◌, length, if◌then◌else◌,
}
use minhq.Base.Words.{u64}
use minhq.Io.BitWriter.{BitWriter, Writes, ◌>>◌, write_bit, write}
use minhq.Io.BitReader.{BitReader, read_bit, read_byte}
use minhq.Hc.Integers.{read_int, write_int}
use minhq.Hc.Huffman.{HuffmanDecompressor, compress, pad_compressed, decompress, decompressor_tree}

pub data HuffmanCodingChoice : Type 0 where
  huffman_coding_auto huffman_coding_always huffman_coding_never : HuffmanCodingChoice

-- A bytes.Buffer, which takes everything.
abbrev pub empty_buffer : BitWriter
empty_buffer = record {
  sink = record { bytes = []; answers = []; byte_writer = true };
  saved = 0;
  saved_bits = 0;
  bytes_written = 0;
}

padded : ℕ → ℕ → BitWriter × Option Error → Result (List ℕ)
padded n l (bw, some e) = err e
padded n l (bw, none) = if ltb n l then err Error.short_write else ok bw.sink.bytes

-- The string in the Huffman code, up to a whole octet.
pub huffman_encode : List ℕ → Result (List ℕ)
unfolding padded
huffman_encode s =
    let (bw, n, e) = compress 0 s empty_buffer in
    let whole = padded n (length s) (pad_compressed bw) in elim e [ some x ↦ err x | none ↦ whole ]

-- The Huffman bit, and the bytes behind the length.
pub encode_string : HuffmanCodingChoice → List ℕ → Result (ℕ × List ℕ)
encode_string huffman_coding_never s = ok (0, s)
encode_string huffman_coding_always s = elim (huffman_encode s) [
  | err e ↦ err e
  | ok buf ↦ ok (1, buf)
]
encode_string huffman_coding_auto s = elim (huffman_encode s) [
  | err e ↦ err e
  | ok buf ↦ ok (if ltb (length buf) (length s) then (1, buf) else (0, s))
]

pub write_payload : List ℕ → Writes
write_payload p bw =
    let (bw', n, e) = write p bw in
    elim e [
      | some x ↦ (bw', some x)
      | none ↦ if ltb n (length p) then (bw', some Error.short_write) else (bw', none)
    ]

pub write_string_raw : List ℕ → ℕ → HuffmanCodingChoice → Writes
unfolding write_payload
write_string_raw s prefix huffman bw = elim (encode_string huffman s) [
  | err e ↦ (bw, some e)
  | ok (hbit, p) ↦ (write_bit hbit >> write_int (length p) prefix >> write_payload p) bw
]

pub write_string : List ℕ → ℕ → Writes
write_string s prefix = write_string_raw s prefix huffman_coding_auto

-- `n` bytes one after the other, as io.ReadFull and the bit reader of the decompressor ask for them:
-- those that there are, and the error behind them.
pub read_full : ℕ → BitReader → BitReader × List ℕ × Option Error
read_full zero r = (r, [], none)
read_full (suc n) r =
    let (r', x) = read_byte r in
    let (r'', bytes, e) = read_full n r' in
    elim x [ err e' ↦ (r', [], some e') | ok b ↦ (r'', b ∷ bytes, e) ]

-- What `ReadString` makes of the bytes and the error of io.ReadFull: EOF behind some bytes becomes
-- io.ErrUnexpectedEOF, which it passes over.
pub full_string : List ℕ → Option Error → Result (List ℕ)
full_string bytes none = ok bytes
full_string [] (some e) = err e
full_string (b ∷ bytes) (some Error.eof) = ok (b ∷ bytes)
full_string (b ∷ bytes) (some e) = err e

-- A slice of 2 ^ 63 bytes or more is a panic of `make`; memory is taken for unbounded.
pub read_plain : ℕ → BitReader → BitReader × Result (List ℕ)
read_plain len r =
    let (r', bytes, e) = read_full len r in
    if leb (2 ^ 63) len then (r, err Error.panicked) else (r', full_string bytes e)

-- The decompressor's own bit reader takes its bytes off an io.LimitedReader, at most `len` of them
-- (none, if the length as an int64 is negative) and each when it needs it; the outer reader moves on
-- by those that were taken.
pub limited : ℕ → BitReader → BitReader
limited len r =
    let (r', bytes, e) = read_full (if leb (2 ^ 63) len then 0 else len) r in
    record {
      source = record { bytes = bytes; stop = elim e [ none ↦ Error.eof | some x ↦ x ] };
      saved = 0;
      saved_bits = 0;
    }

from_limited : ℕ → BitReader → BitReader → BitReader × Result (List ℕ)
from_limited len r start =
    let (d, bytes, e) =
      decompress (u64 (len * 8) / 5 + 1) (record { reader = start; cursor = decompressor_tree }) in
    (
      (read_full (length start.source.bytes - length d.reader.source.bytes) r).0,
      full_string bytes e,
    )

pub read_compressed : ℕ → BitReader → BitReader × Result (List ℕ)
unfolding from_limited
read_compressed len r = from_limited len r (limited len r)

-- The errors of the first two reads are dropped, as the source drops them.
pub read_string : ℕ → BitReader → BitReader × Result (List ℕ)
unfolding read_plain read_compressed
read_string prefix r =
    let (r', x) = read_bit r in
    elim x [
      | err e ↦ (r', ok [])
      | ok huffman ↦
          (let (r'', y) = read_int prefix r' in
            elim y [
              | err e ↦ (r'', ok [])
              | ok len ↦ if huffman == 0 then read_plain len r'' else read_compressed len r''
            ])
    ]
