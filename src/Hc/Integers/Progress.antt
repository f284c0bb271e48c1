-- ===== src/Hc/Integers/Progress.antt =====
-- `ReadInt` and `ReadIndex` give nothing back.
use minhq.Base.{ℕ, zero, suc, ◌+◌, ◌-◌, ◌^◌, ◌≤◌, arith, ltb, ◌==◌}
use minhq.Base.Words.{◌<<<◌, u8, u64}
use minhq.Io.BitReader.{Reads, ◌>>=◌, pure, fail, read_bits}
use minhq.Io.BitReader.Progress.{
  Advances, Behind-refl, read_bits-Advances, >>=-Advances, if-Advances,
}
use minhq.Hc.Integers.{overflows, read_int_loop, read_int, read_index}
use minhq.Base.{if◌then◌else◌}
use minhq.Base.{Error}
use Prim.Native.Nat.{bit_and}

abbrev next : ℕ → ℕ → ℕ → ℕ
next v s b = u64 (v + u64 (bit_and b 0x7f <<< s))

abbrev round : ℕ → ℕ → ℕ → ℕ → Reads ℕ
round rounds v s b =
    if overflows v s b
    then fail Error.integer_overflow
    else if bit_and b 0x80 == 0
    then pure (next v s b)
    else read_int_loop rounds (next v s b) (u8 (s + 7))

read_int_loop-Advances : (rounds v s : ℕ) → Advances (read_int_loop rounds v s)
unfolding read_int_loop
read_int_loop-Advances zero v s = Behind-refl
read_int_loop-Advances (suc rounds) v s =
    if-Advances (ltb s 64) (read_bits 8 >>= round rounds v s) (pure v)
      (>>=-Advances (read_bits 8) (round rounds v s) (read_bits-Advances 8 (omega arith)) (λ b.
        if-Advances (overflows v s b) (fail Error.integer_overflow)
          (if bit_and b 0x80 == 0
            then pure (next v s b)
            else read_int_loop rounds (next v s b) (u8 (s + 7)))
          Behind-refl
          (if-Advances (bit_and b 0x80 == 0) (pure (next v s b))
            (read_int_loop rounds (next v s b) (u8 (s + 7))) Behind-refl
            (read_int_loop-Advances rounds (next v s b) (u8 (s + 7))))))
      Behind-refl

pub read_int-Advances : (prefix : ℕ) → prefix ≤ 64 → Advances (read_int prefix)
unfolding read_int
read_int-Advances prefix most =
    >>=-Advances (read_bits prefix)
      (λ v. if ltb v ((1 <<< prefix) - 1) then pure v else read_int_loop 10 v 0)
      (read_bits-Advances prefix most)
      (λ v.
        if-Advances (ltb v ((1 <<< prefix) - 1)) (pure v) (read_int_loop 10 v 0) Behind-refl
          (read_int_loop-Advances 10 v 0))

pub read_index-Advances : (prefix : ℕ) → prefix ≤ 64 → Advances (read_index prefix)
unfolding read_index
read_index-Advances prefix most =
    >>=-Advances (read_int prefix)
      (λ v. if ltb (2 ^ 63 - 1) v then fail Error.integer_overflow else pure v)
      (read_int-Advances prefix most)
      (λ v.
        if-Advances (ltb (2 ^ 63 - 1) v) (fail Error.integer_overflow) (pure v) Behind-refl
          Behind-refl)
