-- ===== src/Io/BitWriter/View.antt =====
-- The string of bits that a `bitWriter` has been given: what went out, then what it holds.
use minhq.Base.{ℕ, List, [], ◌∷◌, ◌++◌, ◌≡◌, refl}
use minhq.Base.Bits.{bits_of}
use minhq.Io.BitWriter.{BitWriter}
use mathlib.Core.List.{append_assoc}

-- The bits of a byte string.
abbrev pub byte_bits : List ℕ → List ℕ
byte_bits [] = []
byte_bits (b ∷ bs) = bits_of 8 b ++ byte_bits bs

pub byte_bits-append : (xs ys : List ℕ) → byte_bits (xs ++ ys) ≡ byte_bits xs ++ byte_bits ys
byte_bits-append [] ys = refl
byte_bits-append (x ∷ xs) ys = rw (byte_bits-append xs ys, append_assoc) refl

abbrev pub view : BitWriter → List ℕ
view bw = byte_bits bw.sink.bytes ++ bits_of bw.saved_bits bw.saved
