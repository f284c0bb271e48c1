-- ===== src/Hc/QpackEncoder/Overshooting.antt =====
-- The decoder's account of what it has acknowledged, against the encoder's.
use minhq.Base.{
  ℕ, ◌+◌, ◌-◌, ◌^◌, ◌<◌, ◌≡◌, refl, Bool, true, false, Option, some, Error, arith, ltb, leb, ◌==◌,
}
use minhq.Hc.QpackFeedback.{
  Feedback, Instruction, table_state_synchronize, take_event, block_acknowledged, entry_available,
  timer_fired,
}
use minhq.Hc.QpackEncoder.{QpackEncoder, acknowledge_insert}

-- The decoder behind the acknowledgment of a block that refers to `m`, one more entry, and the timer.
abbrev pub later : ℕ → ℕ → ℕ → Feedback → Feedback × Option Instruction
later n m id f =
    take_event timer_fired
      (take_event (entry_available (n + 1)) (take_event (block_acknowledged id m) f).0).0

-- When decoder and encoder agree that `n` entries below 2^61 are acknowledged, `n + 1` have been
-- inserted, a header block that refers to an `m` above 0 and below `n` is acknowledged, and the
-- entry `n + 1` arrives, then the decoder's next Table State Synchronize acknowledges `n + 1 - m`
-- more entries, although there is one more, and `AcknowledgeInsert` of it is ErrIndexError.
pub synchronize_overshoots :
    (n m id : ℕ) (delay : Bool) (encoder : QpackEncoder)
    → 0 < m
    → m < n
    → n < 2 ^ 61
    → encoder.highest_acknowledged ≡ n
    → encoder.table.common.base ≡ n + 1
    → ((later n m id (record { largest_acknowledged = n; sync_largest = n; delay_tss = delay })).1
        ≡ some (table_state_synchronize (n + 1 - m)))
      × (acknowledge_insert (n + 1 - m) encoder ≡ some (encoder, some Error.index_error))
unfolding take_event acknowledge_insert
synchronize_overshoots n m id delay encoder positive below small highest base =
    let newer : ltb n (n + 1) ≡ true = ground arith in
    let due : leb (n + 1) m ≡ false = ground arith in
    let some_entries : (n + 1 - m == 0) ≡ false = ground arith in
    let an_int : leb (2 ^ 63) (n + 1 - m) ≡ false = ground arith in
    let no_wrap : leb (2 ^ 63) (n + (n + 1 - m)) ≡ false = ground arith in
    let beyond : ltb (n + 1) (n + (n + 1 - m)) ≡ true = ground arith in
    (
      rw (newer, take_event, due) refl,
      rw (highest, acknowledge_insert, base, some_entries, an_int, no_wrap, beyond) refl,
    )
