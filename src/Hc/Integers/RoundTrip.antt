-- ===== src/Hc/Integers/RoundTrip.antt =====
-- `ReadInt` reads back what `WriteInt` wrote, and its values never wrap.
use minhq.Base.{
  ℕ, zero, suc, ◌+◌, ◌-◌, ◌*◌, ◌/◌, ◌%◌, ◌^◌, ◌≤◌, ◌<◌, ◌≡◌, ◌≢◌, refl, ap, ◌∙◌, List, ◌++◌, true,
  false, Bool-cases, inl, inr, ltb, ◌==◌, ==_iff, if◌then◌else◌, arith, lt→ltb, ltb→lt,
  ltb_false→le, le→ltb_false, Error,
}
use minhq.Base.Words.{◌<<<◌, u8, u64, IsU64, and_mask, and_top, pow_pos}
use minhq.Base.Bits.{bits_of, pow-add}
use minhq.Io.BitReader.{BitReader, Reads, ◌>>=◌, pure, fail, read_bits}
use minhq.Io.BitReader.View.{view, IsValid}
use minhq.Io.BitReader.Gives.{Gives, read_bits-Gives, >>=-Gives}
use minhq.Hc.Integers.{read_int, read_index, read_int_loop, overflows}
use minhq.Hc.Integers.Bits.{group_bits, group_bits-last, group_bits-more, int_bits}
use Prim.Native.Nat.{bit_and}
use native.Mathlib.Nat.{div-add-mod}
use mathlib.Core.List.{append_assoc}

-- The step of `ReadInt` on one octet.
abbrev step : ℕ → ℕ → ℕ → ℕ → Reads ℕ
step rounds v s b =
    let v' = u64 (v + u64 (bit_and b 0x7f <<< s)) in
    let rest = read_int_loop rounds v' (u8 (s + 7)) in
    if overflows v s b
    then fail Error.integer_overflow
    else if bit_and b 0x80 == 0
    then pure v'
    else rest

grown :
    (v s b : ℕ)
    → v + b % 128 * 2 ^ s < 2 ^ 64
    → u64 (v + u64 (bit_and b 0x7f <<< s)) ≡ v + b % 128 * 2 ^ s
grown v s b h = rw (and_mask 7 b) (omega arith)

no_overflow : (v s p : ℕ) → p < 128 → v + p * 2 ^ s < 2 ^ 64 → overflows v s p ≡ false
unfolding overflows
no_overflow v s p small fits = elim (Bool-cases (s == 63)) [
  | inl e ↦
      let z : s ≡ 63 = (==_iff s 63).0 e in
      let fits' : v + p * 2 ^ 63 < 2 ^ 64 = rw z at fits in rw e (ground arith)
  | inr e ↦ rw e
]

last_octet :
    (rounds p v s : ℕ) (r : BitReader) (stop : Error) (rest : List ℕ)
    → p < 128
    → v + p * 2 ^ s < 2 ^ 64
    → IsValid r
    → r.source.stop ≡ stop
    → view r ≡ rest
    → Gives stop rest (v + p * 2 ^ s) (step rounds v s p r)
last_octet rounds p v s r stop rest small fits u t e =
    let low : p % 128 ≡ p = omega arith in
    let bare : (bit_and p 0x80 == 0) ≡ true = ground (arith, and_top p) in
    rw (no_overflow v s p small fits, bare, grown v s p (rw low fits), low)
      (record { valid = u; stops = t; value = refl; left = e })

-- The value so far, and the groups still to come at the shift `s`.
split_at : (p s : ℕ) → p * 2 ^ s ≡ p % 128 * 2 ^ s + p / 128 * 2 ^ (s + 7)
split_at p s = omega (
  arith,
  ap (λ (t : ℕ). t * 2 ^ s) (div-add-mod p 128),
  ap (λ (t : ℕ). p / 128 * t) (pow-add s 7),
)

no_room : (p v s : ℕ) → 128 ≤ p → v + p * 2 ^ s < 2 ^ 64 → s ≢ 63
no_room p v s big fits z =
    let fits' : v + p * 2 ^ 63 < 2 ^ 64 = rw z at fits in absurd (omega arith)

open_round :
    (rounds v s : ℕ) (r : BitReader)
    → s < 64
    → read_int_loop (suc rounds) v s r ≡ (read_bits 8 >>= step rounds v s) r
unfolding read_int_loop
open_round rounds v s r h = rw (lt→ltb s 64 h)

inner_octet :
    (rounds p v s : ℕ) (r : BitReader)
    → 128 ≤ p
    → s ≤ 63
    → v + p * 2 ^ s < 2 ^ 64
    → step rounds v s (p % 128 + 128) r ≡ read_int_loop rounds (v + p % 128 * 2 ^ s) (s + 7) r
unfolding overflows
inner_octet rounds p v s r big hs fits =
    let b = p % 128 + 128 in
    let more : (bit_and b 0x80 == 0) ≡ false = ground (arith, and_top b) in
    let low : b % 128 ≡ p % 128 = omega arith in
    let near : (s == 63) ≡ false = ground (arith, no_room p v s) in
    let next : u8 (s + 7) ≡ s + 7 = omega arith in
    let fits' : v + b % 128 * 2 ^ s < 2 ^ 64 = rw low (omega (arith, split_at p s)) in
    rw (near, more, grown v s b fits', low, next)

last_round :
    (rounds p v s : ℕ) (r : BitReader) (stop : Error) (rest : List ℕ)
    → s ≤ 63
    → p < 128
    → v + p * 2 ^ s < 2 ^ 64
    → IsValid r
    → r.source.stop ≡ stop
    → view r ≡ group_bits (suc rounds) p ++ rest
    → Gives stop rest (v + p * 2 ^ s) (read_int_loop (suc rounds) v s r)
last_round rounds p v s r stop rest hs small fits u t e =
    rw (open_round rounds v s r (omega arith), ← t)
      (>>=-Gives (read_bits 8) (step rounds v s) r
        (read_bits-Gives 8 p r rest u (omega arith) (omega arith)
          (e ∙ ap (λ x. x ++ rest) (group_bits-last rounds p small)))
        (λ r' u' t' e'. last_octet rounds p v s r' r.source.stop rest small fits u' t' e'))

read_int_loop-Gives :
    (rounds p v s : ℕ) (r : BitReader) (stop : Error) (rest : List ℕ)
    → s + 7 * rounds ≡ 63
    → v + p * 2 ^ s < 2 ^ 64
    → IsValid r
    → r.source.stop ≡ stop
    → view r ≡ group_bits (suc rounds) p ++ rest
    → Gives stop rest (v + p * 2 ^ s) (read_int_loop (suc rounds) v s r)
read_int_loop-Gives zero p v s r stop rest hs fits u t e = elim (Bool-cases (ltb p 128)) [
  | inl h ↦ last_round zero p v s r stop rest (omega arith) (ltb→lt p 128 h) fits u t e
  | inr h ↦ absurd (no_room p v s (ltb_false→le p 128 h) fits (omega arith))
]
read_int_loop-Gives (suc rounds) p v s r stop rest hs fits u t e = elim (Bool-cases (ltb p 128)) [
  | inl h ↦ last_round (suc rounds) p v s r stop rest (omega arith) (ltb→lt p 128 h) fits u t e
  | inr h ↦
      let big : 128 ≤ p = ltb_false→le p 128 h in
      let v' = v + p % 128 * 2 ^ s in
      let total : v' + p / 128 * 2 ^ (s + 7) ≡ v + p * 2 ^ s = omega (arith, split_at p s) in
      rw (open_round (suc rounds) v s r (omega arith), ← t)
        (>>=-Gives (read_bits 8) (step (suc rounds) v s) r
          (read_bits-Gives 8 (p % 128 + 128) r (group_bits (suc rounds) (p / 128) ++ rest) u
            (omega arith) (omega arith)
            (e ∙ ap (λ x. x ++ rest) (group_bits-more (suc rounds) p big) ∙ append_assoc _ _ rest))
          (λ r' u' t' e'.
            rw (inner_octet (suc rounds) p v s r' big (omega arith) fits, ← total)
              (read_int_loop-Gives rounds (p / 128) v' (s + 7) r' r.source.stop rest (omega arith)
                (omega arith) u' t' e')))
]

abbrev first_step : ℕ → ℕ → Reads ℕ
first_step prefix v = if ltb v (1 <<< prefix - 1) then pure v else read_int_loop 10 v 0

abbrev index_step : ℕ → Reads ℕ
index_step offset = if ltb (2 ^ 63 - 1) offset then fail Error.integer_overflow else pure offset

-- `ReadInt(prefix)`, on a valid reader in front of the bits of an HPACK integer that is a uint64
-- with a prefix of 1 to 8 bits, returns the integer and takes exactly its bits.
pub read_int-Gives :
    (p prefix : ℕ) (r : BitReader) (rest : List ℕ)
    → IsU64 p
    → 1 ≤ prefix
    → prefix ≤ 8
    → IsValid r
    → view r ≡ int_bits prefix p ++ rest
    → Gives r.source.stop rest p (read_int prefix r)
unfolding read_int int_bits
read_int-Gives p prefix r rest hp lo hi u e =
    let ones = 2 ^ prefix - 1 in
    let plain : 1 <<< prefix - 1 ≡ ones = omega arith in
    elim (Bool-cases (ltb p ones)) [
      | inl h ↦
          let first : view r ≡ bits_of prefix p ++ rest = rw h at e in
          >>=-Gives (read_bits prefix) (first_step prefix) r
            (read_bits-Gives prefix p r rest u (omega arith) (ground arith) first)
            (λ r' u' t' e'.
              rw (plain, h) (record { valid = u'; stops = t'; value = refl; left = e' }))
      | inr h ↦
          let first : view r ≡ (bits_of prefix ones ++ group_bits 10 (p - ones)) ++ rest =
            rw h at e in
          let full : ltb ones ones ≡ false = ground arith in
          let total : ones + (p - ones) * 2 ^ 0 ≡ p = ground arith in
          >>=-Gives (read_bits prefix) (first_step prefix) r
            (read_bits-Gives prefix ones r (group_bits 10 (p - ones) ++ rest) u (omega arith)
              (omega (arith, pow_pos prefix)) (first ∙ append_assoc _ _ rest))
            (λ r' u' t' e'.
              rw (plain, full, ← total)
                (read_int_loop-Gives 9 (p - ones) ones 0 r' r.source.stop rest (omega arith)
                  (rw total hp) u' t' e'))
    ]

-- `ReadIndex(prefix)`, on a valid reader in front of the bits of an HPACK integer below 2^63 with
-- a prefix of 1 to 8 bits, returns the integer and takes exactly its bits.
pub read_index-Gives :
    (p prefix : ℕ) (r : BitReader) (rest : List ℕ)
    → p < 2 ^ 63
    → 1 ≤ prefix
    → prefix ≤ 8
    → IsValid r
    → view r ≡ int_bits prefix p ++ rest
    → Gives r.source.stop rest p (read_index prefix r)
unfolding read_index
read_index-Gives p prefix r rest hp lo hi u e =
    >>=-Gives (read_int prefix) index_step r
      (read_int-Gives p prefix r rest (omega arith) lo hi u e)
      (λ r' u' t' e'.
        rw (le→ltb_false (2 ^ 63 - 1) p (omega arith))
          (record { valid = u'; stops = t'; value = refl; left = e' }))
