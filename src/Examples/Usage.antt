-- ===== src/Examples/Usage.antt =====
-- Concrete inputs to the theorems on the usage tracker.
use minhq.Base.{inl, ℕ, ◌+◌, ◌^◌, ◌<◌, refl, List, [], ◌∷◌, arith}
use minhq.Hc.UsageTracker.{
  Counts, HeaderBlockUsage, UsageTracker, ack, add_uses, new_block, cancel, record_usage,
}
use minhq.Hc.UsageTracker.Counting.{
  occurrences, stream_uses, uses, Counted, ack-Counted, cancel-Counted, record_usage-Counted,
}

abbrev block : List ℕ → HeaderBlockUsage
block entries = record { entries = entries; largest = 7 }

-- Stream 4 has two blocks to be acknowledged, and stream 8 one.
abbrev tracker : UsageTracker
tracker = (4, block (5 ∷ 7 ∷ 5 ∷ []) ∷ block (7 ∷ []) ∷ []) ∷ (8, block (6 ∷ []) ∷ []) ∷ []

abbrev counts : Counts
counts b = uses b tracker

few-uses : (b : ℕ) → counts b + occurrences b (5 ∷ 9 ∷ []) < 2 ^ 64
unfolding uses stream_uses occurrences
few-uses b = ground arith

tracker-Counted : Counted counts tracker
tracker-Counted b = (refl, omega (arith, few-uses b))

ack-Counted_example : Counted (ack 4 tracker counts).0.1 (ack 4 tracker counts).0.0
ack-Counted_example = ack-Counted 4 tracker counts tracker-Counted

cancel-Counted_example : Counted (cancel 4 tracker counts).0.1 (cancel 4 tracker counts).0.0
cancel-Counted_example = cancel-Counted 4 tracker counts tracker-Counted

record_usage-Counted_example :
    Counted
      (add_uses (5 ∷ 9 ∷ []) (new_block, counts)).1
      (record_usage 9 12 (add_uses (5 ∷ 9 ∷ []) (new_block, counts)).0 tracker)
record_usage-Counted_example =
    record_usage-Counted 9 12 (5 ∷ 9 ∷ []) tracker counts tracker-Counted few-uses
      (inl (omega arith))
