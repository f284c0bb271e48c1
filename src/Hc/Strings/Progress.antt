-- ===== src/Hc/Strings/Progress.antt =====
-- `ReadString` gives nothing back.
use minhq.Base.{Result-cases, Bool-cases, inl, inr, ℕ, zero, suc, ◌^◌, ◌≤◌, leb, ◌==◌}
use minhq.Io.BitReader.{BitReader, read_bit, read_byte}
use minhq.Io.BitReader.View.{IsValid}
use minhq.Io.BitReader.Progress.{
  Behind, Advances, Behind-refl, Behind-trans, read_bit-Advances, read_byte-Advances,
}
use minhq.Hc.Integers.{read_int}
use minhq.Hc.Integers.Progress.{read_int-Advances}
use minhq.Hc.Strings.{read_full, read_plain, from_limited, read_compressed, read_string}

read_full-Behind : (n : ℕ) (r : BitReader) → IsValid r → Behind r (read_full n r).0
unfolding read_full
read_full-Behind zero r u = Behind-refl r u
read_full-Behind (suc n) r u =
    let b = read_byte-Advances r u in
    elim (Result-cases (read_byte r).1) [
      | inl (c, e) ↦
          rw (e, read_full)
            (Behind-trans r (read_byte r).0 _ b (read_full-Behind n (read_byte r).0 b.valid))
      | inr (x, e) ↦ rw (e, read_full) b
    ]

read_plain-Advances : (len : ℕ) → Advances (read_plain len)
unfolding read_plain
read_plain-Advances len r u = elim (Bool-cases (leb (2 ^ 63) len)) [
  | inl e ↦ rw (e, read_plain) (Behind-refl r u)
  | inr e ↦ rw (e, read_plain) (read_full-Behind len r u)
]

read_compressed-Advances : (len : ℕ) → Advances (read_compressed len)
unfolding read_compressed from_limited
read_compressed-Advances len r u = read_full-Behind _ r u

pub read_string-Advances : (prefix : ℕ) → prefix ≤ 64 → Advances (read_string prefix)
unfolding read_string
read_string-Advances prefix most r u =
    let b = read_bit-Advances r u in
    let r' = (read_bit r).0 in
    let c = read_int-Advances prefix most r' b.valid in
    let r'' = (read_int prefix r').0 in
    let d = Behind-trans r r' r'' b c in
    elim (Result-cases (read_bit r).1) [
      | inr (x, e) ↦ rw (e, read_string) b
      | inl (huffman, e) ↦ elim (Result-cases (read_int prefix r').1) [
        | inr (x, e') ↦ rw (e, read_string, e') d
        | inl (len, e') ↦ elim (Bool-cases (huffman == 0)) [
          | inl plain ↦
              rw (e, read_string, e', plain)
                (Behind-trans r r'' _ d (read_plain-Advances len r'' d.valid))
          | inr coded ↦
              rw (e, read_string, e', coded)
                (Behind-trans r r'' _ d (read_compressed-Advances len r'' d.valid))
        ]
      ]
    ]
