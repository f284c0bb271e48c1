-- ===== src/Frame/Frames.antt =====
-- Round trip of frame headers, and what `WriteFrame` sends and reports.
use minhq.Base.{
  ℕ, ◌+◌, ◌-◌, ◌*◌, ◌^◌, ◌<◌, ◌≡◌, refl, ap, ◌∙◌, List, ◌++◌, arith, length, length-append, All,
}
use minhq.Base.Words.{◌<<<◌, IsByte, pow_pos}
use minhq.Base.Bits.{bits_of, length-bits_of}
use minhq.Io.BitReader.{BitReader, ◌>>=◌, pure, read_byte}
use minhq.Io.BitReader
use minhq.Io.BitReader.View.{view, IsValid}
use minhq.Io.BitReader.Gives.{Gives, read_byte-Gives, >>=-Gives}
use minhq.Io.BitWriter.{BitWriter, write_byte}
use minhq.Io.BitWriter.View
use minhq.Io.BitWriter.View.{byte_bits}
use minhq.Io.BitWriter.Wrote.{IsHealthy, Sent, write_byte-Wrote}
use minhq.Io.BitWriter.Padding.{length-byte_bits}
use minhq.Io.BitWriter.Slices.{write-Sent}
use minhq.Frame.{
  varint_size, read_varint, read_frame, write_varint, write_frame, frame_type, frame_payload,
}
use minhq.Frame.Varint.{varint_bits, write_varint-Sent, read_varint-Gives}
use mathlib.Core.List.{append_assoc}

abbrev pub frame_bits : ℕ → List ℕ → List ℕ
frame_bits t p = varint_bits (length p) ++ (bits_of 8 t ++ byte_bits p)

-- `WriteFrame`, for a type of one byte and a payload of bytes below 2^62 of them, on a writer
-- whose transport accepts, returns nil, appends the length, the type and the payload, and returns
-- the length's bytes plus the payload's plus two.
pub write_frame-Sent :
    (t : ℕ) (p : List ℕ) (bw : BitWriter)
    → t < 256
    → length p < 2 ^ 62
    → All IsByte p
    → IsHealthy bw
    → Sent ((1 <<< varint_size (length p)) + length p + 2) (frame_bits t p) bw (write_frame t p bw)
unfolding write_frame
write_frame-Sent t p bw ht hp h u =
    let first = write_varint-Sent (length p) bw hp u in
    let second = write_byte-Wrote t (write_varint (length p) bw).0 first.healthy ht in
    let third = write-Sent p (write_byte t (write_varint (length p) bw).0).0 second.healthy h in
    rw (first.no_error, write_frame, frame_type, second.no_error, frame_payload)
      (record {
        healthy = third.healthy;
        count = omega (arith, first.count, third.count);
        no_error = third.no_error;
        appended =
            third.appended
            ∙ ap (λ x. x ++ byte_bits p)
                (second.appended ∙ ap (λ x. x ++ bits_of 8 t) first.appended)
            ∙ simp append_assoc;
      })

-- The step of `ReadFrame` behind the length.
abbrev type_step : ℕ → BitReader.Reads (ℕ × ℕ)
type_step len = read_byte >>= λ c. pure (c, len)

-- `ReadFrame`, on a valid reader in front of a frame with a type of one byte and a payload below
-- 2^62 bytes, returns the type and the length and stops in front of the payload.
pub read_frame-Gives :
    (t : ℕ) (p rest : List ℕ) (r : BitReader)
    → t < 256
    → length p < 2 ^ 62
    → IsValid r
    → view r ≡ frame_bits t p ++ rest
    → Gives r.source.stop (byte_bits p ++ rest) (t, length p) (read_frame r)
unfolding read_frame
read_frame-Gives t p rest r ht hp u e =
    >>=-Gives read_varint type_step r
      (read_varint-Gives (length p) r (bits_of 8 t ++ (byte_bits p ++ rest)) hp u
        (e ∙ simp append_assoc))
      (λ r' u' t' e'.
        >>=-Gives read_byte (λ c. pure (c, length p)) r'
          (rw (← t') (read_byte-Gives t r' (byte_bits p ++ rest) u' ht e'))
          (λ r'' u'' t'' e''. record { valid = u''; stops = t''; value = refl; left = e'' }))

length-varint_bits : (v : ℕ) → length (varint_bits v) ≡ 8 <<< varint_size v
unfolding varint_bits
length-varint_bits v = omega (
  arith,
  length-append (bits_of 2 (varint_size v)) (bits_of (8 <<< varint_size v - 2) v),
  length-bits_of 2 (varint_size v),
  length-bits_of (8 <<< varint_size v - 2) v,
  pow_pos (varint_size v),
)

-- For a type of one byte and a payload of bytes below 2^62 of them, on a writer whose transport
-- accepts, the count that `WriteFrame` returns is one above the number of bytes that it appends.
pub write_frame_overcounts :
    (t : ℕ) (p : List ℕ) (bw : BitWriter)
    → t < 256
    → length p < 2 ^ 62
    → All IsByte p
    → IsHealthy bw
    → 8 * (write_frame t p bw).1 + length (View.view bw)
      ≡ length (View.view (write_frame t p bw).0) + 8
write_frame_overcounts t p bw ht hp h u =
    let sent = write_frame-Sent t p bw ht hp h u in
    omega (
      arith,
      sent.count,
      ap length sent.appended,
      length-append (View.view bw) (frame_bits t p),
      length-append (varint_bits (length p)) (bits_of 8 t ++ byte_bits p),
      length-append (bits_of 8 t) (byte_bits p),
      length-bits_of 8 t,
      length-byte_bits p,
      length-varint_bits (length p),
    )
