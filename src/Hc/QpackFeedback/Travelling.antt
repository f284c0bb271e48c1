-- ===== src/Hc/QpackFeedback/Travelling.antt =====
-- The decoder's instructions, written and read.
use minhq.Base.{ℕ, ◌^◌, ◌<◌, List, ◌++◌, arith}
use minhq.Base.Bits.{bits_of}
use minhq.Io.BitWriter.{◌>>◌, write_bit, write_bits}
use minhq.Io.BitWriter.Wrote.{write_bit-Wrote, write_bits-Wrote}
use minhq.Io.Travels.{Puts, >>-Puts}
use minhq.Hc.Integers.{write_int}
use minhq.Hc.Integers.Bits.{int_bits, write_int-Wrote}
use minhq.Hc.QpackFeedback.{
  Instruction, header_acknowledgment, stream_cancellation, table_state_synchronize,
  write_instruction,
}

abbrev pub argument : Instruction → ℕ
argument (header_acknowledgment v) = v
argument (stream_cancellation v) = v
argument (table_state_synchronize v) = v

abbrev pub instruction_bits : Instruction → List ℕ
instruction_bits (header_acknowledgment v) = bits_of 1 1 ++ int_bits 7 v
instruction_bits (stream_cancellation v) = bits_of 2 1 ++ int_bits 6 v
instruction_bits (table_state_synchronize v) = bits_of 2 0 ++ int_bits 6 v

two-Puts :
    (code v : ℕ)
    → code < 4
    → v < 2 ^ 64
    → Puts (bits_of 2 code ++ int_bits 6 v) (write_bits code 2 >> write_int v 6)
two-Puts code v small h =
    >>-Puts (bits_of 2 code) (int_bits 6 v) (write_bits code 2) (write_int v 6)
      (λ bw u. write_bits-Wrote code 2 bw u (omega arith) (omega arith))
      (λ bw u. write_int-Wrote v 6 bw h (omega arith) (omega arith) u)

pub write_instruction-Puts :
    (i : Instruction) → argument i < 2 ^ 64 → Puts (instruction_bits i) (write_instruction i)
unfolding write_instruction
write_instruction-Puts (header_acknowledgment v) h =
    >>-Puts (bits_of 1 1) (int_bits 7 v) (write_bit 1) (write_int v 7)
      (λ bw u. write_bit-Wrote 1 bw u (omega arith))
      (λ bw u. write_int-Wrote v 7 bw h (omega arith) (omega arith) u)
write_instruction-Puts (stream_cancellation v) h = two-Puts 1 v (omega arith) h
write_instruction-Puts (table_state_synchronize v) h = two-Puts 0 v (omega arith) h
