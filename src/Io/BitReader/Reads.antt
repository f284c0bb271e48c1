-- ===== src/Io/BitReader/Reads.antt =====
-- What each call of a `bitReader` takes off the string of bits in front of it.
use minhq.Base.{
  ℕ, ◌+◌, ◌-◌, ◌/◌, ◌%◌, ◌^◌, ◌≤◌, ◌<◌, ◌≡◌, refl, ap, ◌⊎◌, inl, inr, List, [], ◌∷◌, ◌++◌,
  Bool-cases, ◌==◌, ==_iff, false, Error, Result, ok, err, arith, ltb, leb, ltb, leb→le,
  le→ltb_false, length, All, length-append,
}
use minhq.Base.Words.{◌<<<◌, ◌>>>◌, u8, u64, IsByte, and_mask, pow_pos}
use minhq.Base.Bits.{bits_of, bits_of-split, bits_of-mod, bits_of-or, or-lt, shr-lt, length-bits_of}
use minhq.Io.BitWriter.View.{byte_bits}
use minhq.Io.BitReader.{
  BitReader, read_byte_internal, read_next, read_loop, read_bits, ones, take_bits, join_bits,
  finish_bits, take_bit, read_bit, read_byte,
}
use minhq.Io.BitReader.View.{view, IsValid}
use mathlib.Core.List.{append_assoc, append-nil}
use native.Mathlib.Nat.{mod-lt}
use Prim.Native.Nat.{bit_and, bit_or}
use minhq.Io.BitReader.Fetch.{and-ones, reader, read_next-Fetched, read_next-stop, read_loop-Looped}

-- What `ReadBits` promises: it takes the next `count` bits off the string and returns them as a
-- number, or answers with the source's error, when there are fewer, and keeps the string.
abbrev pub Took : ℕ → BitReader → BitReader × Result ℕ → Type 0
Took count r s =
    IsValid s.0
    × (s.0.source.stop ≡ r.source.stop)
    × (((w : ℕ) × (s.1 ≡ ok w) × (w < 2 ^ count) × (view r ≡ bits_of count w ++ view s.0))
        ⊎ ((s.1 ≡ err r.source.stop) × (view s.0 ≡ view r) × (length (view r) < count)))

take_bits-Took :
    (count : ℕ) (r : BitReader)
    → IsValid r
    → count ≤ 64
    → count ≤ r.saved_bits
    → Took count r (take_bits count r)
unfolding take_bits
take_bits-Took count r v most enough = (
  record { room = omega (arith, v.room); octets = v.octets },
  refl,
  inl (bit_and (r.saved >>> n) (ones count), refl, rw masked (mod-lt x (pow_pos count)), parts),
)
  where
    n : ℕ
    n = r.saved_bits - count

    x : ℕ
    x = r.saved >>> n

    masked : bit_and x (ones count) ≡ x % 2 ^ count
    masked = and-ones count x most

    parts :
        view r
        ≡ bits_of count (bit_and x (ones count)) ++ (bits_of n r.saved ++ byte_bits r.source.bytes)
    parts =
        rw
          (
            masked,
            bits_of-mod count count x (omega arith),
            bits_of-split r.saved_bits count n r.saved (omega arith),
            append_assoc,
          )
          refl

joined :
    (bytes : List ℕ) (stop : Error) (saved n count : ℕ)
    → All IsByte bytes
    → count ≤ 64
    → n < count
    → count < n + 8
    → Took count (reader bytes stop saved n) (join_bits count (reader bytes stop saved n))
unfolding join_bits read_byte_internal
joined [] stop saved n count octets most more near = (
  record { room = omega arith; octets = tt },
  refl,
  inr (refl, refl, omega (arith, length-append (bits_of n saved) [], length-bits_of n saved)),
)
joined (b ∷ rest) stop saved n count octets most more near = (
  record { room = omega arith; octets = octets.1 },
  refl,
  inl (bit_or (u64 (x <<< m)) y, refl, fits, whole),
)
  where
    m : ℕ
    m = count - n

    x : ℕ
    x = bit_and saved (ones n)

    y : ℕ
    y = b >>> (8 - m)

    small : y < 2 ^ m
    small = shr-lt 8 m (8 - m) b (omega arith) octets.0

    fits : bit_or (u64 (x <<< m)) y < 2 ^ count
    fits =
        or-lt count n m x y (omega arith) most
          (rw (and-ones n saved (omega arith)) (mod-lt saved (pow_pos n))) small

    whole :
        bits_of n saved ++ (bits_of 8 b ++ byte_bits rest)
        ≡ bits_of count (bit_or (u64 (x <<< m)) y) ++ (bits_of (8 - m) b ++ byte_bits rest)
    whole =
        rw
          (
            bits_of-or count n m x y (omega arith) most small,
            and-ones n saved (omega arith),
            bits_of-mod n n saved (omega arith),
            bits_of-split 8 m (8 - m) b (omega arith),
          )
          (simp append_assoc)

join_bits-Took :
    (count : ℕ) (r : BitReader)
    → IsValid r
    → count ≤ 64
    → r.saved_bits < count
    → count < r.saved_bits + 8
    → Took count r (join_bits count r)
join_bits-Took count r v most more near =
    joined r.source.bytes r.source.stop r.saved r.saved_bits count v.octets most more near

-- `Took` only asks about the string of bits in front of the call and the source's last error.
Took-same :
    (count : ℕ) (r r' : BitReader) (s : BitReader × Result ℕ)
    → view r' ≡ view r
    → r'.source.stop ≡ r.source.stop
    → Took count r' s
    → Took count r s
Took-same count r r' s e f t = rw (← e, ← f) t

short_view :
    (count : ℕ) (r : BitReader)
    → r.source.bytes ≡ []
    → r.saved_bits + 8 ≤ count
    → length (view r) < count
short_view count r e h = rw e (
    omega
      (arith, length-append (bits_of r.saved_bits r.saved) [], length-bits_of r.saved_bits r.saved))

-- `ReadBits(count)` on a valid reader, with a count of at most 64, takes the next `count` bits off
-- the input and returns their value, or, when fewer are left, returns the source's error and loses
-- no bit.
pub read_bits-Took :
    (count : ℕ) (r : BitReader) → IsValid r → count ≤ 64 → Took count r (read_bits count r)
unfolding read_bits finish_bits
read_bits-Took count r v most =
    let l = read_loop (count / 8) count r in
    let r' = l.0 in
    let (w, u, s, o) = read_loop-Looped (count / 8) count r v most (omega arith) in
    let in_range : ltb 64 count ≡ false = le→ltb_false 64 count most in
    elim o [
      | inr (failed, ended, short) ↦
          rw (in_range, failed, finish_bits)
            (u, s, inr (refl, w, rw (← w) (short_view count r' ended short)))
      | inl (done, near) ↦ elim (Bool-cases (leb count r'.saved_bits)) [
        | inl e ↦
            rw (in_range, done, finish_bits, e)
              (Took-same count r r' _ w s (take_bits-Took count r' u most (leb→le _ _ e)))
        | inr e ↦
            rw (in_range, done, finish_bits, e)
              (Took-same count r r' _ w s (join_bits-Took count r' u most (ground arith) near))
      ]
    ]

one_bit : (x : ℕ) → bit_and (u8 x) 1 ≡ x % 2
one_bit x = omega (arith, and_mask 1 (u8 x))

take_bit-Took : (r : BitReader) → IsValid r → 0 < r.saved_bits → Took 1 r (take_bit r)
unfolding take_bit
take_bit-Took r v h =
    let n = r.saved_bits - 1 in
    let x = r.saved >>> n in
    (
      record { room = omega (arith, v.room); octets = v.octets },
      refl,
      inl (
        bit_and (u8 x) 1,
        refl,
        omega (arith, one_bit x),
        rw
            (
              one_bit x,
              bits_of-mod 1 1 x (omega arith),
              bits_of-split r.saved_bits 1 n r.saved (omega arith),
              append_assoc,
            )
            refl,
      ),
    )

-- `ReadBit` is `ReadBits(1)`, errors included.
pub read_bit-Took : (r : BitReader) → IsValid r → Took 1 r (read_bit r)
unfolding read_bit
read_bit-Took r v =
    let n = read_next r in
    elim (Bool-cases (ltb 0 r.saved_bits)) [
      | inl e ↦ rw (e, read_bit) (take_bit-Took r v (ground arith))
      | inr e ↦ elim (read_next-Fetched r v (ground arith)) [
        | inl (done, grown, same, v') ↦
            rw (e, done, read_bit)
              (Took-same 1 r n.0 _ same (read_next-stop r) (take_bit-Took n.0 v' (omega arith)))
        | inr (failed, same, ended) ↦
            rw (e, failed, same, read_bit)
              (v, refl, inr (refl, refl, none_left r (ground arith) ended))
      ]
    ]
  where
    none_left : (r : BitReader) → r.saved_bits ≡ 0 → r.source.bytes ≡ [] → length (view r) < 1
    none_left r e f = rw f (
        omega (
          arith,
          length-append (bits_of r.saved_bits r.saved) [],
          length-bits_of r.saved_bits r.saved,
        ))

next_octet :
    (bytes : List ℕ) (stop : Error) (saved n : ℕ)
    → n ≡ 0
    → All IsByte bytes
    → Took 8 (reader bytes stop saved n) (read_byte_internal (reader bytes stop saved n))
unfolding read_byte_internal bits_of
next_octet [] stop saved n e octets = (
  record { room = omega arith; octets = tt },
  refl,
  inr (refl, refl, rw (append-nil, length-bits_of) (omega arith)),
)
next_octet (b ∷ rest) stop saved n e octets =
    (record { room = omega arith; octets = octets.1 }, refl, inl (b, refl, octets.0, rw e refl))

small_byte :
    (r : BitReader) (s : BitReader × Result ℕ)
    → Took 8 r s
    → Took 8 r (elim s.1 [ ok b ↦ (s.0, ok (u8 b)) | err e ↦ (s.0, err e) ])
small_byte r s (v, t, inl (w, e, lt, eq)) = rw e (v, t, inl (w, ap ok (omega arith), lt, eq))
small_byte r s (v, t, inr (e, same, lt)) = rw e (v, t, inr (refl, same, lt))

-- `ReadByte` is `ReadBits(8)`, on an octet's boundary too.
pub read_byte-Took : (r : BitReader) → IsValid r → Took 8 r (read_byte r)
unfolding read_byte
read_byte-Took r v = elim (Bool-cases (r.saved_bits == 0)) [
  | inl e ↦
      let z : r.saved_bits ≡ 0 = (==_iff _ _).0 e in
      rw (e, read_byte) (next_octet r.source.bytes r.source.stop r.saved r.saved_bits z v.octets)
  | inr e ↦ rw (e, read_byte) (small_byte r _ (read_bits-Took 8 r v (omega arith)))
]
