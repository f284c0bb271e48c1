-- ===== src/Io/BitReader/Fetch.antt =====
-- `readNext` and the loop of `ReadBits`: octets move from the source into the saved bits.
use minhq.Base.{
  ℕ, zero, suc, ◌+◌, ◌-◌, ◌*◌, ◌%◌, ◌^◌, ◌≤◌, ◌<◌, ◌≡◌, refl, ◌∙◌, ◌⊎◌, inl, inr, List, [], ◌∷◌,
  ◌++◌, Bool-cases, Option, none, some, Error, arith, leb, All,
}
use minhq.Base.Words.{◌<<<◌, u8, u64, IsByte, and_mask, pow_pos}
use minhq.Base.Bits.{bits_of, bits_of-or, pow_split}
use minhq.Io.BitReader.{BitReader, read_byte_internal, read_next, read_loop, ones}
use minhq.Io.BitReader.View.{view, IsValid}
use mathlib.Core.List.{append_assoc}
use native.Mathlib.Nat.{div-eq_of_lt-le}
use Prim.Native.Nat.{bit_and, bit_or}

one_less : (a p : ℕ) → 0 < a → (a - 1) * p + p ≡ a * p
one_less zero p h = absurd (omega arith)
one_less (suc a) p h = rw (let e : suc a - 1 ≡ a = omega arith in e) (omega arith)

-- The mask of the low `k` bits.
ones_lem : (k : ℕ) → k ≤ 64 → ones k ≡ 2 ^ k - 1
ones_lem k h =
    let size : 2 ^ 64 ≡ 2 ^ k * 2 ^ (64 - k) = pow_split 64 k (64 - k) (omega arith) in
    let top = one_less (2 ^ k) (2 ^ (64 - k)) (pow_pos k) in
    let full : 2 ^ k - 1 + 1 ≡ 2 ^ k = omega (arith, pow_pos k) in
    div-eq_of_lt-le (2 ^ (64 - k)) (omega (arith, size, top, pow_pos (64 - k)))
      (rw full (omega (arith, size)))

pub and-ones : (k x : ℕ) → k ≤ 64 → bit_and x (ones k) ≡ x % 2 ^ k
and-ones k x h = rw (ones_lem k h) (and_mask k x)

-- Either the string is kept and one octet moves into the saved bits, or the source has ended.
abbrev pub Fetched : BitReader → BitReader × Option Error → Type 0
Fetched r s =
    ((s.1 ≡ none) × (s.0.saved_bits ≡ r.saved_bits + 8) × (view s.0 ≡ view r) × IsValid s.0)
    ⊎ ((s.1 ≡ some r.source.stop) × (s.0 ≡ r) × (r.source.bytes ≡ []))

abbrev pub reader : List ℕ → Error → ℕ → ℕ → BitReader
reader bytes stop saved n = record {
  source = record { bytes = bytes; stop = stop };
  saved = saved;
  saved_bits = n;
}

fetched :
    (bytes : List ℕ) (stop : Error) (saved n : ℕ)
    → All IsByte bytes
    → n + 8 ≤ 64
    → Fetched (reader bytes stop saved n) (read_next (reader bytes stop saved n))
unfolding read_next read_byte_internal
fetched [] stop saved n octets room = inr (refl, refl, refl)
fetched (b ∷ rest) stop saved n octets room = inl (
  refl,
  grown,
  rw (grown, joined, append_assoc) refl,
  record { room = omega arith; octets = octets.1 },
)
  where
    grown : u8 (n + 8) ≡ n + 8
    grown = omega arith

    joined : bits_of (n + 8) (bit_or (u64 (saved <<< 8)) b) ≡ bits_of n saved ++ bits_of 8 b
    joined = bits_of-or (n + 8) n 8 saved b refl room octets.0

pub read_next-Fetched :
    (r : BitReader) → IsValid r → r.saved_bits + 8 ≤ 64 → Fetched r (read_next r)
read_next-Fetched r v room = fetched r.source.bytes r.source.stop r.saved r.saved_bits v.octets room

-- The loop keeps the string of bits, and ends with enough bits saved for all but the last octet.
abbrev pub Looped : ℕ → BitReader → BitReader × Option Error → Type 0
Looped count r s =
    (view s.0 ≡ view r)
    × IsValid s.0
    × (s.0.source.stop ≡ r.source.stop)
    × (((s.1 ≡ none) × (count < s.0.saved_bits + 8))
        ⊎ ((s.1 ≡ some r.source.stop) × (s.0.source.bytes ≡ []) × (s.0.saved_bits + 8 ≤ count)))

pub read_next-stop : (r : BitReader) → (read_next r).0.source.stop ≡ r.source.stop
unfolding read_next read_byte_internal
read_next-stop r = ground arith

pub read_loop-Looped :
    (rounds count : ℕ) (r : BitReader)
    → IsValid r
    → count ≤ 64
    → count < r.saved_bits + rounds * 8 + 8
    → Looped count r (read_loop rounds count r)
unfolding read_loop
read_loop-Looped zero count r v most enough = (refl, v, refl, inl (refl, omega arith))
read_loop-Looped (suc rounds) count r v most enough =
    elim (Bool-cases (leb (u8 (r.saved_bits + 8)) count)) [
      | inr e ↦ rw (e, read_loop) (refl, v, refl, inl (refl, ground arith))
      | inl e ↦
          let room : r.saved_bits + 8 ≤ count = ground arith in
          let r' = (read_next r).0 in
          elim (read_next-Fetched r v (omega arith)) [
            | inl (done, n, same, v') ↦
                let (w, u, s, o) = read_loop-Looped rounds count r' v' most (omega arith) in
                rw (e, done, read_loop)
                  (w ∙ same, u, s ∙ read_next-stop r, rw (read_next-stop r) at o)
            | inr (failed, same, ended) ↦
                rw (e, failed, same, read_loop) (refl, v, refl, inr (refl, ended, room))
          ]
    ]
