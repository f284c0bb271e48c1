-- ===== src/Hc/Integers/Bits.antt =====
-- The bits of an HPACK integer, in plain arithmetic, and that `WriteInt` writes them.
use minhq.Base.{
  ◌∙◌, ◌*◌, length, length-append, ℕ, zero, suc, ◌+◌, ◌-◌, ◌/◌, ◌%◌, ◌^◌, ◌≤◌, ◌<◌, ◌≡◌, refl, List,
  [], ◌++◌, Bool-cases, inl, inr, true, false, ◌||◌, ◌==◌, ltb, lt→ltb, le→ltb_false, if◌then◌else◌,
  arith, ltb→lt,
}
use minhq.Base.Words.{◌<<<◌, ◌>>>◌, u8, IsU64, and_mask, or_top, pow_pos}
use minhq.Base.Bits.{bits_of, length-bits_of}
use minhq.Io.BitWriter.{BitWriter, write_bits, write_byte}
use minhq.Io.BitWriter.Wrote.{IsHealthy, Wrote, write_bits-Wrote, write_byte-Wrote, >>-Wrote}
use minhq.Hc.Integers.{write_groups, write_int}
use Prim.Native.Nat.{bit_and, bit_or}
use native.Mathlib.Nat.{pow-suc}

-- Groups of seven bits, lowest first, each but the last with the top bit set.
unfoldable pub group_bits : ℕ → ℕ → List ℕ
group_bits zero p = []
group_bits (suc rounds) p =
    let rest = group_bits rounds (p / 128) in
    if ltb p 128 then bits_of 8 p else bits_of 8 (p % 128 + 128) ++ rest

pub group_bits-last : (rounds p : ℕ) → p < 128 → group_bits (suc rounds) p ≡ bits_of 8 p
unfolding group_bits
group_bits-last rounds p h = rw (lt→ltb p 128 h) refl

pub group_bits-more :
    (rounds p : ℕ)
    → 128 ≤ p
    → group_bits (suc rounds) p ≡ bits_of 8 (p % 128 + 128) ++ group_bits rounds (p / 128)
unfolding group_bits
group_bits-more rounds p h = rw (le→ltb_false p 128 h) refl

-- A prefix of ones stands for 2 ^ prefix - 1, to which the groups are added.
unfoldable pub int_bits : ℕ → ℕ → List ℕ
int_bits prefix p =
    if ltb p (2 ^ prefix - 1)
    then bits_of prefix p
    else bits_of prefix (2 ^ prefix - 1) ++ group_bits 10 (p - (2 ^ prefix - 1))

low_group : (p : ℕ) → u8 (bit_and p 0x7f) ≡ p % 128
low_group p = omega (arith, and_mask 7 p)

-- The last group, and a group before it.
last_group :
    (rounds p : ℕ) (bw : BitWriter)
    → p < 128
    → IsHealthy bw
    → Wrote (group_bits (suc rounds) p) bw (write_groups (suc rounds) p bw)
unfolding write_groups group_bits
last_group rounds p bw h u =
    let no_more : ltb 0 (p >>> 7) ≡ false = ground arith in
    let low : p % 128 ≡ p = omega arith in
    rw (no_more, lt→ltb p 128 h, low_group p, low) (write_byte-Wrote p bw u (omega arith))

write_groups-Wrote :
    (rounds p : ℕ) (bw : BitWriter)
    → p < 128 ^ suc rounds
    → IsHealthy bw
    → Wrote (group_bits (suc rounds) p) bw (write_groups (suc rounds) p bw)
unfolding write_groups group_bits
write_groups-Wrote zero p bw h u = last_group zero p bw (omega arith) u
write_groups-Wrote (suc rounds) p bw h u = elim (Bool-cases (ltb p 128)) [
  | inl e ↦ last_group (suc rounds) p bw (ltb→lt p 128 e) u
  | inr e ↦
      let more : ltb 0 (p >>> 7) ≡ true = ground arith in
      let top : bit_or (u8 (bit_and p 0x7f)) 0x80 ≡ p % 128 + 128 =
        rw (low_group p) (or_top (p % 128) (omega arith)) in
      rw (e, more, top)
        (>>-Wrote (bits_of 8 (p % 128 + 128)) (group_bits (suc rounds) (p / 128))
          (write_byte (p % 128 + 128)) (write_groups (suc rounds) (p >>> 7)) bw
          (write_byte-Wrote (p % 128 + 128) bw u (omega arith))
          (λ bw' u'.
            write_groups-Wrote rounds (p / 128) bw' (omega (arith, pow-suc 128 (suc rounds))) u'))
]

-- `WriteInt(p, prefix)`, for every uint64 and every prefix of 1 to 8 bits, returns nil on a
-- transport that accepts, and appends exactly the bits of the HPACK integer, in which groups of
-- seven bits follow a prefix of ones.
pub write_int-Wrote :
    (p prefix : ℕ) (bw : BitWriter)
    → IsU64 p
    → 1 ≤ prefix
    → prefix ≤ 8
    → IsHealthy bw
    → Wrote (int_bits prefix p) bw (write_int p prefix bw)
unfolding write_int int_bits
write_int-Wrote p prefix bw hp lo hi u =
    let plain : 1 <<< prefix - 1 ≡ 2 ^ prefix - 1 = omega arith in
    let in_range : (ltb 8 prefix || prefix == 0) ≡ false = ground arith in
    elim (Bool-cases (ltb p (2 ^ prefix - 1))) [
      | inl e ↦
          rw (in_range, plain, e) (write_bits-Wrote p prefix bw u (omega arith) (ground arith))
      | inr e ↦
          rw (in_range, plain, e)
            (>>-Wrote (bits_of prefix (2 ^ prefix - 1)) (group_bits 10 (p - (2 ^ prefix - 1)))
              (write_bits (2 ^ prefix - 1) prefix) (write_groups 10 (p - (2 ^ prefix - 1))) bw
              (write_bits-Wrote (2 ^ prefix - 1) prefix bw u (omega arith)
                (omega (arith, pow_pos prefix)))
              (λ bw' u'. write_groups-Wrote 9 (p - (2 ^ prefix - 1)) bw' (omega arith) u'))
    ]

length-group_bits : (rounds p : ℕ) → (k : ℕ) × (length (group_bits rounds p) ≡ 8 * k)
unfolding group_bits
length-group_bits zero p = (0, refl)
length-group_bits (suc rounds) p =
    let (k, e) = length-group_bits rounds (p / 128) in
    elim (Bool-cases (ltb p 128)) [
      | inl last ↦ rw last (1, length-bits_of 8 p)
      | inr more ↦ rw more (
        suc k,
        omega (
          arith,
          e,
          length-append (bits_of 8 (p % 128 + 128)) (group_bits rounds (p / 128)),
          length-bits_of 8 (p % 128 + 128),
        ),
      )
    ]

-- Behind the prefix there are whole octets.
pub length-int_bits : (prefix p : ℕ) → (k : ℕ) × (length (int_bits prefix p) ≡ prefix + 8 * k)
unfolding int_bits
length-int_bits prefix p =
    let ones = 2 ^ prefix - 1 in
    let (k, e) = length-group_bits 10 (p - ones) in
    elim (Bool-cases (ltb p ones)) [
      | inl short ↦ rw short (0, omega (arith, length-bits_of prefix p))
      | inr long ↦ rw long (
        k,
        length-append (bits_of prefix ones) (group_bits 10 (p - ones))
            ∙ rw (length-bits_of prefix ones, e) refl,
      )
    ]
