-- ===== src/Io/BitReader/View.antt =====
-- The string of bits that a `bitReader` still has in front of it.
use minhq.Base.{ℕ, List, ◌++◌, ◌≤◌, All}
use minhq.Base.Words.{IsByte}
use minhq.Base.Bits.{bits_of}
use minhq.Io.BitWriter.View.{byte_bits}
use minhq.Io.BitReader.{BitReader}

abbrev pub view : BitReader → List ℕ
view r = bits_of r.saved_bits r.saved ++ byte_bits r.source.bytes

pub record IsValid (r : BitReader) : Type 0 where
  pub room : r.saved_bits ≤ 64
  pub octets : All IsByte r.source.bytes
