-- ===== src/Examples.antt =====
-- Concrete inputs to the theorems: the writers and readers of io, then hc, frames and messages.
mod Tables
mod Strings
mod Blocks
mod Qpack
mod Usage
use minhq.Base.{
  ℕ, zero, suc, ◌+◌, ◌-◌, ◌*◌, ◌^◌, ◌≡◌, refl, List, [], ◌∷◌, ◌++◌, Bool, true, false, Option, none,
  some, Error, Result, ok, err, arith, length, map,
}
use minhq.Base.Words.{◌<<<◌}
use minhq.Base.Bits.{bits_of}
use minhq.Base.Int.{ℤ, pos, negsuc, ◌+ℤ◌, ◌-ℤ◌}
use minhq.Base.Names.{Name, codes}
use minhq.Io.BitWriter.{Answer, BitWriter, write_bits, write}
use minhq.Io.BitWriter.View.{byte_bits}
use minhq.Io.BitWriter.Writes.{Accounted, write_bits-Accounted}
use minhq.Io.BitWriter.Wrote.{IsHealthy, Wrote, Sent}
use minhq.Io.BitWriter.Slices.{write-Sent}
use minhq.Io.BitWriter.View
use minhq.Io.BitReader.{BitReader, Source, read_bits}
use minhq.Io.BitReader.View.{IsValid}
use minhq.Io.BitReader.Reads.{Took, read_bits-Took}
use minhq.Io.BitReader.Gives.{Gives}
use minhq.Hc.Integers.{read_int, read_index, write_int}
use minhq.Hc.Integers.Bits.{int_bits, group_bits, write_int-Wrote}
use minhq.Hc.Integers.RoundTrip.{read_int-Gives}
use minhq.Base.Names.{codes}
use minhq.Io.BitReader
use minhq.Hc.Huffman.{HuffmanDecompressor, compress, decompress, decompressor_tree}
use minhq.Hc.Huffman.RoundTrip.{huffman_bits, compress-Sent, decompress-huffman_bits}
use minhq.Frame.{varint_size, write_varint, read_varint, write_frame, read_frame}
use minhq.Frame.Varint.{varint_bits, write_varint-Sent, read_varint-Gives}
use minhq.Frame.Frames.{frame_bits, write_frame-Sent, read_frame-Gives, write_frame_overcounts}

-- Three bits are held, and the transport takes one byte and then fails.
abbrev busy_writer : BitWriter
busy_writer = record {
  sink = record {
    bytes = 7 ∷ [];
    answers = Answer.accepts ∷ Answer.fails ∷ [];
    byte_writer = false;
  };
  saved = 5;
  saved_bits = 3;
  bytes_written = 1;
}

-- Three bits are held, and the transport accepts everything.
abbrev ready_writer : BitWriter
ready_writer = record {
  sink = record { bytes = 7 ∷ []; answers = []; byte_writer = true };
  saved = 5;
  saved_bits = 3;
  bytes_written = 1;
}

ready : IsHealthy ready_writer
ready = record { small = omega arith; accepting = refl; octets = (omega arith, tt) }

write_bits-Accounted_example : Accounted 0xabcde 20 busy_writer (write_bits 0xabcde 20 busy_writer)
write_bits-Accounted_example =
    write_bits-Accounted 0xabcde 20 busy_writer (omega arith) (omega arith) (omega arith)

write-Sent_example :
    Sent 2 (byte_bits (200 ∷ 17 ∷ [])) ready_writer (write (200 ∷ 17 ∷ []) ready_writer)
write-Sent_example = write-Sent (200 ∷ 17 ∷ []) ready_writer ready (omega arith, (omega arith, tt))

-- Two bits of an octet are left, and five octets behind it.
abbrev busy_reader : BitReader
busy_reader = record {
  source = record { bytes = 1 ∷ 2 ∷ 3 ∷ 250 ∷ 255 ∷ []; stop = Error.eof };
  saved = 6;
  saved_bits = 2;
}

read_bits-Took_example : Took 21 busy_reader (read_bits 21 busy_reader)
read_bits-Took_example =
    read_bits-Took 21 busy_reader
      (record {
        room = omega arith;
        octets = (omega arith, (omega arith, (omega arith, (omega arith, (omega arith, tt)))));
      })
      (omega arith)

write_int-Wrote_example : Wrote (int_bits 5 1337) ready_writer (write_int 1337 5 ready_writer)
write_int-Wrote_example =
    write_int-Wrote 1337 5 ready_writer (omega arith) (omega arith) (omega arith) ready

-- The low five bits are ones, and 154, 10 behind them make 1337.
abbrev int_reader : BitReader
int_reader = record {
  source = record { bytes = 154 ∷ 10 ∷ 99 ∷ []; stop = Error.eof };
  saved = 31;
  saved_bits = 5;
}

int_reader-IsValid : IsValid int_reader
int_reader-IsValid = record {
  room = omega arith;
  octets = (omega arith, (omega arith, (omega arith, tt)));
}

read_int-Gives_example : Gives Error.eof (bits_of 8 99) 1337 (read_int 5 int_reader)
unfolding int_bits group_bits bits_of
read_int-Gives_example =
    read_int-Gives 1337 5 int_reader (bits_of 8 99) (omega arith) (omega arith) (omega arith)
      int_reader-IsValid refl

write_varint-Sent_example :
    Sent
      (1 <<< varint_size 15293)
      (varint_bits 15293)
      ready_writer
      (write_varint 15293 ready_writer)
write_varint-Sent_example = write_varint-Sent 15293 ready_writer (omega arith) ready

-- RFC 9000's example, 0x7bbd for 15293, and a byte behind it.
abbrev varint_reader : BitReader
varint_reader = record {
  source = record { bytes = 0x7b ∷ 0xbd ∷ 25 ∷ []; stop = Error.eof };
  saved = 0;
  saved_bits = 0;
}

read_varint-Gives_example : Gives Error.eof (bits_of 8 25) 15293 (read_varint varint_reader)
unfolding varint_bits varint_size bits_of
read_varint-Gives_example =
    read_varint-Gives 15293 varint_reader (bits_of 8 25) (omega arith)
      (record { room = omega arith; octets = (omega arith, (omega arith, (omega arith, tt))) }) refl

abbrev payload : List ℕ
payload = 200 ∷ 17 ∷ []

write_frame-Sent_example :
    Sent
      ((1 <<< varint_size 2) + 2 + 2)
      (frame_bits 1 payload)
      ready_writer
      (write_frame 1 payload ready_writer)
write_frame-Sent_example =
    write_frame-Sent 1 payload ready_writer (omega arith) (omega arith)
      (omega arith, (omega arith, tt)) ready

write_frame_overcounts_example :
    8 * (write_frame 1 payload ready_writer).1 + length (View.view ready_writer)
    ≡ length (View.view (write_frame 1 payload ready_writer).0) + 8
write_frame_overcounts_example =
    write_frame_overcounts 1 payload ready_writer (omega arith) (omega arith)
      (omega arith, (omega arith, tt)) ready

abbrev frame_reader : BitReader
frame_reader = record {
  source = record { bytes = 2 ∷ 1 ∷ 200 ∷ 17 ∷ 25 ∷ []; stop = Error.eof };
  saved = 0;
  saved_bits = 0;
}

read_frame-Gives_example :
    Gives Error.eof (byte_bits payload ++ bits_of 8 25) (1, 2) (read_frame frame_reader)
unfolding varint_bits varint_size bits_of
read_frame-Gives_example =
    read_frame-Gives 1 payload (bits_of 8 25) frame_reader (omega arith) (omega arith)
      (record {
        room = omega arith;
        octets = (omega arith, (omega arith, (omega arith, (omega arith, (omega arith, tt)))));
      })
      refl

abbrev word : List ℕ
word = codes "Hi"

compress-Sent_example : Sent (0 + 2) (huffman_bits word) ready_writer (compress 0 word ready_writer)
compress-Sent_example = compress-Sent 0 word ready_writer ready (omega arith, (omega arith, tt))

-- 1100011 for H and 00110 for i, and four ones.
abbrev decompressor : HuffmanDecompressor
decompressor = record {
  reader = record {
    source = record { bytes = 198 ∷ 111 ∷ []; stop = Error.eof };
    saved = 0;
    saved_bits = 0;
  };
  cursor = decompressor_tree;
}

decompress-huffman_bits_example :
    ((decompress 2 decompressor).1 ≡ word)
    × ((decompress 2 decompressor).2 ≡ none)
    × ((decompress 2 decompressor).0.cursor ≡ decompressor_tree)
    × IsValid (decompress 2 decompressor).0.reader
    × (BitReader.View.view (decompress 2 decompressor).0.reader ≡ 1 ∷ 1 ∷ 1 ∷ 1 ∷ [])
unfolding huffman_bits bits_of
decompress-huffman_bits_example =
    decompress-huffman_bits word (1 ∷ 1 ∷ 1 ∷ 1 ∷ []) decompressor (omega arith, (omega arith, tt))
      (record { room = omega arith; octets = (omega arith, (omega arith, tt)) }) refl refl
