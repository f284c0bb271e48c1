-- ===== src/Hc/QpackEncoder/Instructions.antt =====
-- The encoder reads the instructions that the decoder writes.
use minhq.Base.{ℕ, ◌^◌, ◌<◌, ◌≤◌, refl, ◌++◌, arith, ◌==◌, if◌then◌else◌}
use minhq.Base.Bits.{bits_of}
use minhq.Io.BitReader.{Reads, ◌>>=◌, pure, read_bit}
use minhq.Io.BitReader.Gives.{read_bit-Gives}
use minhq.Io.Travels.{Takes, Travels, >>=-Takes, step-Takes}
use minhq.Hc.Integers.{read_int}
use minhq.Hc.Integers.Bits.{int_bits}
use minhq.Hc.Integers.RoundTrip.{read_int-Gives}
use minhq.Hc.QpackFeedback.{
  Instruction, header_acknowledgment, stream_cancellation, table_state_synchronize,
  write_instruction,
}
use minhq.Hc.QpackFeedback.Travelling.{argument, instruction_bits, write_instruction-Puts}
use minhq.Hc.QpackEncoder.{read_instruction, read_other_instruction}

read_bit-Takes : (v : ℕ) → v < 2 → Takes (bits_of 1 v) read_bit v
read_bit-Takes v h r rest u e = read_bit-Gives v r rest u h e

read_int-Takes :
    (prefix v : ℕ)
    → 1 ≤ prefix
    → prefix ≤ 8
    → v < 2 ^ 64
    → Takes (int_bits prefix v) (read_int prefix) v
read_int-Takes prefix v low high h r rest u e = read_int-Gives v prefix r rest h low high u e

abbrev behind : ℕ → Reads Instruction
behind b =
    if b == 1 then (read_int 7 >>= λ v. pure (header_acknowledgment v)) else read_other_instruction

other-Takes :
    (b v : ℕ)
    → b < 2
    → v < 2 ^ 64
    → Takes
        (bits_of 1 b ++ int_bits 6 v)
        read_other_instruction
        (if b == 0 then table_state_synchronize v else stream_cancellation v)
unfolding read_other_instruction
other-Takes b v small h =
    >>=-Takes (bits_of 1 b) (int_bits 6 v) read_bit
      (λ b. read_int 6 >>= λ v.
        pure (if b == 0 then table_state_synchronize v else stream_cancellation v))
      b _ (read_bit-Takes b small)
      (step-Takes (int_bits 6 v) (read_int 6)
        (λ v. pure (if b == 0 then table_state_synchronize v else stream_cancellation v)) v _
        (read_int-Takes 6 v (omega arith) (omega arith) h) (λ r. refl))

read_instruction-Takes :
    (i : Instruction) → argument i < 2 ^ 64 → Takes (instruction_bits i) read_instruction i
unfolding read_instruction bits_of
read_instruction-Takes (header_acknowledgment v) h =
    >>=-Takes (bits_of 1 1) (int_bits 7 v) read_bit behind 1 _ (read_bit-Takes 1 (omega arith)) (
      step-Takes (int_bits 7 v) (read_int 7) (λ v. pure (header_acknowledgment v)) v _
        (read_int-Takes 7 v (omega arith) (omega arith) h) (λ r. refl))
read_instruction-Takes (stream_cancellation v) h =
    >>=-Takes (bits_of 1 0) (bits_of 1 1 ++ int_bits 6 v) read_bit behind 0 _
      (read_bit-Takes 0 (omega arith)) (other-Takes 1 v (omega arith) h)
read_instruction-Takes (table_state_synchronize v) h =
    >>=-Takes (bits_of 1 0) (bits_of 1 0 ++ int_bits 6 v) read_bit behind 0 _
      (read_bit-Takes 0 (omega arith)) (other-Takes 0 v (omega arith) h)

-- `ServiceAcknowledgments` reads each instruction that `writeAcknowledgements` writes, with an
-- argument that is a uint64, on a transport that accepts, and takes exactly its bits.
pub read_instruction-Travels :
    (i : Instruction)
    → argument i < 2 ^ 64
    → Travels (instruction_bits i) (write_instruction i) read_instruction i
read_instruction-Travels i h = record {
  wrote = write_instruction-Puts i h;
  gives = read_instruction-Takes i h;
}
