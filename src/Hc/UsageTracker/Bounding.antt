-- ===== src/Hc/UsageTracker/Bounding.antt =====
-- The largest references of the blocks that are not acknowledged.
use minhq.Base.{ℕ, ◌≤◌, [], ◌∷◌, some, inl, inr, ◌==◌, length, arith, Bool-cases, Option-cases, ◌≡◌}
use minhq.Hc.UsageTracker.{
  Counts, StreamUsage, UsageTracker, stream_ack, find, put, delete, after_ack, ack, cancel,
}

-- No block of the stream refers to an entry above `n`.
unfoldable pub StreamWithin : ℕ → StreamUsage → Type 0
StreamWithin n [] = Unit {0}
StreamWithin n (z ∷ su) = (z.largest ≤ n) × StreamWithin n su

-- No block does.
unfoldable pub IsWithin : ℕ → UsageTracker → Type 0
unfolding StreamWithin
IsWithin n [] = Unit {0}
IsWithin n ((key, su) ∷ ut) = StreamWithin n su × IsWithin n ut

find-StreamWithin :
    (n id : ℕ) (ut : UsageTracker) (su : StreamUsage)
    → IsWithin n ut
    → find id ut ≡ some su
    → StreamWithin n su
unfolding find IsWithin
find-StreamWithin n id [] su h e = absurd (ground arith)
find-StreamWithin n id ((key, x) ∷ ut) su (here, rest) e = elim (Bool-cases (key == id)) [
  | inl same ↦
      let first : some x ≡ some su = rw (same, find) at e in let one : x ≡ su = cc in rw one at here
  | inr other ↦ find-StreamWithin n id ut su rest (rw (other, find) at e)
]

put-IsWithin :
    (n id : ℕ) (su : StreamUsage) (ut : UsageTracker)
    → StreamWithin n su
    → IsWithin n ut
    → IsWithin n (put id su ut)
unfolding put IsWithin
put-IsWithin n id su [] s h = (s, tt)
put-IsWithin n id su ((key, old) ∷ ut) s (here, rest) = elim (Bool-cases (key == id)) [
  | inl same ↦ rw (same, put) (s, rest)
  | inr other ↦ rw (other, put) (here, put-IsWithin n id su ut s rest)
]

delete-IsWithin : (n id : ℕ) (ut : UsageTracker) → IsWithin n ut → IsWithin n (delete id ut)
unfolding delete IsWithin
delete-IsWithin n id [] h = tt
delete-IsWithin n id ((key, old) ∷ ut) (here, rest) = elim (Bool-cases (key == id)) [
  | inl same ↦ rw (same, delete) rest
  | inr other ↦ rw (other, delete) (here, delete-IsWithin n id ut rest)
]

after_ack-IsWithin :
    (n id : ℕ) (su : StreamUsage) (ut : UsageTracker) (counts : Counts)
    → StreamWithin n su
    → IsWithin n ut
    → ((after_ack id ut (stream_ack su counts)).1.0 ≤ n)
      × IsWithin n (after_ack id ut (stream_ack su counts)).0.0
unfolding after_ack stream_ack StreamWithin
after_ack-IsWithin n id [] ut counts s h = (omega arith, delete-IsWithin n id ut h)
after_ack-IsWithin n id (z ∷ su) ut counts (here, s) h = elim (Bool-cases (length su == 0)) [
  | inl last ↦ rw (last, after_ack) (here, delete-IsWithin n id ut h)
  | inr more ↦ rw (more, after_ack) (here, put-IsWithin n id su ut s h)
]

-- The block that `ack` takes away refers to nothing above `n`, nor do those that are left.
pub ack-IsWithin :
    (n id : ℕ) (ut : UsageTracker) (counts : Counts)
    → IsWithin n ut
    → ((ack id ut counts).1.0 ≤ n) × IsWithin n (ack id ut counts).0.0
unfolding ack
ack-IsWithin n id ut counts h = elim (Option-cases (find id ut)) [
  | inl unknown ↦ rw (unknown, ack) (omega arith, h)
  | inr (su, known) ↦
      rw (known, ack)
        (after_ack-IsWithin n id su ut counts (find-StreamWithin n id ut su h known) h)
]

pub cancel-IsWithin :
    (n id : ℕ) (ut : UsageTracker) (counts : Counts)
    → IsWithin n ut
    → IsWithin n (cancel id ut counts).0.0
unfolding cancel
cancel-IsWithin n id ut counts h = elim (Option-cases (find id ut)) [
  | inl unknown ↦ rw (unknown, cancel) h
  | inr (su, known) ↦ rw (known, cancel) (delete-IsWithin n id ut h)
]
