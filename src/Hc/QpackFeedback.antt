-- ===== src/Hc/QpackFeedback.antt =====
-- hc/qpackdecoder.go: `writeAcknowledgements`, which tells the encoder what the decoder has. The
-- goroutine's channels are a sequence of events; one event is one round of its loop.
pub mod Travelling
use minhq.Base.{
  ℕ, ◌+◌, ◌-◌, List, [], ◌∷◌, Bool, true, false, Option, none, some, Error, ltb, leb, if◌then◌else◌,
}
use minhq.Io.BitWriter.{BitWriter, Writes, ◌>>◌, done, write_bit, write_bits}
use minhq.Hc.Integers.{write_int}

-- The variables of the loop. An int that counts inserts is taken for unbounded.
pub record Feedback : Type 0 where
  pub largest_acknowledged : ℕ
  pub sync_largest : ℕ
  pub delay_tss : Bool

-- What arrives on the channels `acknowledged`, `cancelled`, `available` and `tss`.
pub data FeedbackEvent : Type 0 where
  block_acknowledged : ℕ → ℕ → FeedbackEvent
  stream_cancelled : ℕ → FeedbackEvent
  entry_available : ℕ → FeedbackEvent
  timer_fired : FeedbackEvent

pub data Instruction : Type 0 where
  header_acknowledgment stream_cancellation table_state_synchronize : ℕ → Instruction

pub new_feedback : Feedback
new_feedback = record { largest_acknowledged = 0; sync_largest = 0; delay_tss = true }

-- The new variables, and the instruction to be written; the timer that an available entry starts is
-- the environment's.
unfoldable pub take_event : FeedbackEvent → Feedback → Feedback × Option Instruction
take_event (block_acknowledged id largest_reference) f =
    (record f { largest_acknowledged = largest_reference }, some (header_acknowledgment id))
take_event (stream_cancelled id) f = (f, some (stream_cancellation id))
take_event (entry_available entry) f =
    if ltb f.sync_largest entry
    then (record f { sync_largest = entry; delay_tss = false }, none)
    else (f, none)
take_event timer_fired f =
    if leb f.sync_largest f.largest_acknowledged then (record f { delay_tss = true }, none) else (
      record f { largest_acknowledged = f.sync_largest; delay_tss = true },
      some (table_state_synchronize (f.sync_largest - f.largest_acknowledged)),
    )

pub write_instruction : Instruction → Writes
write_instruction (header_acknowledgment v) = write_bit 1 >> write_int v 7
write_instruction (stream_cancellation v) = write_bits 1 2 >> write_int v 6
write_instruction (table_state_synchronize v) = write_bits 0 2 >> write_int v 6

-- The loop over the events; a failed write ends it.
pub write_acknowledgements : List FeedbackEvent → Feedback → Writes
write_acknowledgements [] f bw = (bw, none)
write_acknowledgements (e ∷ es) f bw =
    let (f', i) = take_event e f in
    let rest = write_acknowledgements es f' in
    elim i [ none ↦ rest bw | some x ↦ (write_instruction x >> rest) bw ]
