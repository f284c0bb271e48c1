-- ===== src/Hc/Integers.antt =====
-- hc/io.go: HPACK integers with a prefix of 1 to 8 bits.
pub mod Bits
pub mod RoundTrip
pub mod Progress
use minhq.Base.{ℕ, zero, suc, ◌+◌, ◌-◌, ◌^◌, Bool, ◌&&◌, ◌||◌, Error, ltb, ◌==◌, if◌then◌else◌}
use minhq.Base.Words.{◌<<<◌, ◌>>>◌, u8, u64}
use minhq.Io.BitReader.{Reads, ◌>>=◌, pure, fail, read_bits}
use minhq.Io.BitWriter.{Writes, ◌>>◌, done, write_bits, write_byte, BitWriter}
use Prim.Native.Nat.{bit_and, bit_or}
use mathlib.Core.Option.{some}

-- The test behind the long comment of `ReadInt`: the octet `b` at shift 63 would overflow.
overflows : ℕ → ℕ → ℕ → Bool
overflows v s b = s == 63 && (ltb 1 b || (b == 1 && (v >>> 63) == 1))

-- `for s := uint8(0); s < 64; s += 7`, with the rounds that are left.
pub read_int_loop : ℕ → ℕ → ℕ → Reads ℕ
unfolding overflows
read_int_loop zero v s = pure v
read_int_loop (suc rounds) v s =
    if ltb s 64
    then (read_bits 8 >>= λ b.
        let v' = u64 (v + u64 (bit_and b 0x7f <<< s)) in
        let rest = read_int_loop rounds v' (u8 (s + 7)) in
        if overflows v s b
        then fail Error.integer_overflow
        else if bit_and b 0x80 == 0
        then pure v'
        else rest)
    else pure v

-- The shift runs through 0, 7, …, 63: ten rounds.
pub read_int : ℕ → Reads ℕ
read_int prefix = do
  v ← read_bits prefix
  if ltb v ((1 <<< prefix) - 1) then pure v else read_int_loop 10 v 0

-- `ReadIndex`: the value has to fit an int of 64 bits.
pub read_index : ℕ → Reads ℕ
read_index prefix = do
  offset ← read_int prefix
  if ltb (2 ^ 63 - 1) offset then fail Error.integer_overflow else pure offset

-- The loop of `WriteInt`, with the rounds that are left: groups of seven bits, the lowest first.
pub write_groups : ℕ → ℕ → Writes
write_groups zero p = done
write_groups (suc rounds) p =
    let b = u8 (bit_and p 0x7f) in
    let rest = write_groups rounds (p >>> 7) in
    if ltb 0 (p >>> 7) then write_byte (bit_or b 0x80) >> rest else write_byte b

-- A uint64 has at most ten groups of seven bits.
pub write_int : ℕ → ℕ → Writes
write_int p prefix =
    let ones = (1 <<< prefix) - 1 in
    if ltb 8 prefix || prefix == 0
    then (λ bw. (bw, some Error.panicked))
    else if ltb p ones
    then write_bits p prefix
    else (write_bits ones prefix >> write_groups 10 (p - ones))
