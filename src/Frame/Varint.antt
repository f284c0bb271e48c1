-- ===== src/Frame/Varint.antt =====
-- Round trip of the variable-length integers.
use minhq.Base.{ℕ, ◌-◌, ◌*◌, ◌^◌, ◌≤◌, ◌<◌, ◌≡◌, refl, ap, ◌∙◌, List, ◌++◌, arith, le→leb_false}
use minhq.Base.Words.{◌<<<◌, u8}
use minhq.Base.Bits.{bits_of}
use minhq.Io.BitReader.{BitReader, read_bits}
use minhq.Io.BitReader.View.{view, IsValid}
use minhq.Io.BitReader.Gives.{Gives, read_bits-Gives, >>=-Gives}
use minhq.Io.BitWriter.{BitWriter, write_bits}
use minhq.Io.BitWriter.View
use minhq.Io.BitWriter.Wrote.{IsHealthy, Sent, write_bits-Wrote}
use minhq.Frame.{varint_size, varint_value, write_varint, read_varint}
use mathlib.Core.List.{append_assoc}

-- The bits of the integer, for a size that holds it.
unfoldable pub varint_bits : ℕ → List ℕ
varint_bits v = bits_of 2 (varint_size v) ++ bits_of ((8 <<< varint_size v) - 2) v

pub varint_size-fits :
    (v : ℕ)
    → v < 2 ^ 62
    → (varint_size v < 4) × (8 <<< varint_size v ≤ 64) × (v < 2 ^ ((8 <<< varint_size v) - 2))
unfolding varint_size
varint_size-fits v h = ground arith

-- The number of bytes, and of the bits behind the first two.
n-bits :
    (v : ℕ)
    → (u8 (1 <<< varint_size v) ≡ 1 <<< varint_size v)
      × (u8 (1 <<< varint_size v) * 8 - 2 ≡ (8 <<< varint_size v) - 2)
unfolding varint_size
n-bits v = ground arith

-- `WriteVarint` of a value below 2^62, on a writer whose transport accepts, returns nil and the
-- number of bytes, and appends the size in two bits and the value in the rest of the bytes.
pub write_varint-Sent :
    (v : ℕ) (bw : BitWriter)
    → v < 2 ^ 62
    → IsHealthy bw
    → Sent (1 <<< varint_size v) (varint_bits v) bw (write_varint v bw)
unfolding write_varint varint_bits
write_varint-Sent v bw h u =
    let (four, most, fits) = varint_size-fits v h in
    let size = varint_size v in
    let first = write_bits-Wrote size 2 bw u (omega arith) four in
    let (bytes, same) = n-bits v in
    let n = u8 (1 <<< size) * 8 - 2 in
    let bw' = (write_bits size 2 bw).0 in
    let second = write_bits-Wrote v n bw' first.healthy (rw same (omega arith)) (rw same fits) in
    rw (le→leb_false (2 ^ 62) v h, first.no_error, write_varint, varint_value, second.no_error)
      (record {
        healthy = second.healthy;
        count = bytes;
        no_error = refl;
        appended =
            second.appended
            ∙ ap (λ x. x ++ bits_of n v) first.appended
            ∙ append_assoc (View.view bw) (bits_of 2 size) (bits_of n v)
            ∙ ap (λ k. View.view bw ++ (bits_of 2 size ++ bits_of k v)) same;
      })

-- `ReadVarint`, on a valid reader in front of the bits of a variable-length integer below 2^62,
-- returns the integer and takes exactly its bits.
pub read_varint-Gives :
    (v : ℕ) (r : BitReader) (rest : List ℕ)
    → v < 2 ^ 62
    → IsValid r
    → view r ≡ varint_bits v ++ rest
    → Gives r.source.stop rest v (read_varint r)
unfolding read_varint varint_bits
read_varint-Gives v r rest h u e =
    let (four, most, fits) = varint_size-fits v h in
    let size = varint_size v in
    >>=-Gives (read_bits 2) (λ len. read_bits ((8 <<< len) - 2)) r
      (read_bits-Gives 2 size r (bits_of ((8 <<< size) - 2) v ++ rest) u (omega arith) four
        (e ∙ append_assoc _ _ rest))
      (λ r' u' t' e'.
        rw (← t') (read_bits-Gives ((8 <<< size) - 2) v r' rest u' (omega arith) fits e'))
