-- ===== src/Hc/QpackWriter/Blocks/Newly.antt =====
-- When a header block blocks its stream.
use minhq.Base.{
  ℕ, ◌≡◌, refl, inl, inr, Bool, true, false, ◌&&◌, ltb, leb, arith, Bool-cases, if◌then◌else◌,
}
use minhq.Hc.QpackWriter.{WriterState, setup_usage, within_base, is_newly_blocked}
use minhq.Hc.QpackWriter.Blocking.{Keeps}

-- Whether the stream becomes blocked when a block of it comes to refer up to `largest_base`.
abbrev pub blocks : ℕ → ℕ → ℕ → ℕ
blocks high largest_base stream_largest =
    if ltb high largest_base && leb stream_largest high then 1 else 0

pub setup_usage-Keeps :
    (stream_largest high : ℕ) (may : Bool)
    → Keeps (setup_usage stream_largest high may) (setup_usage stream_largest high may)
unfolding setup_usage within_base
setup_usage-Keeps stream_largest high true = elim (Bool-cases (ltb high stream_largest)) [
  | inl before ↦ rw before (refl, refl, refl)
  | inr not_before ↦ rw not_before (refl, refl, refl)
]
setup_usage-Keeps stream_largest high false = elim (Bool-cases (ltb high stream_largest)) [
  | inl before ↦ rw before (refl, refl, refl)
  | inr not_before ↦ rw not_before (ground arith, refl, refl)
]

-- A stream is newly blocked only where that is allowed.
pub newly_blocked :
    (stream_largest high : ℕ) (may : Bool) (state : WriterState)
    → Keeps (setup_usage stream_largest high may) state
    → is_newly_blocked high state ≡ true
    → may ≡ true
unfolding setup_usage is_newly_blocked within_base
newly_blocked stream_largest high true state k newly = refl
newly_blocked stream_largest high false state (bounded, limit, was) newly =
    elim (Bool-cases (ltb high stream_largest)) [
      | inl before ↦ absurd (ground arith)
      | inr not_before ↦ absurd (ground arith)
    ]

-- A block that is not newly blocked adds no blocked stream.
pub not_newly_blocked :
    (stream_largest high : ℕ) (may : Bool) (state : WriterState)
    → Keeps (setup_usage stream_largest high may) state
    → is_newly_blocked high state ≡ false
    → blocks high state.largest_base stream_largest ≡ 0
unfolding setup_usage is_newly_blocked
not_newly_blocked stream_largest high may state (bounded, limit, was) not_newly = ground arith
