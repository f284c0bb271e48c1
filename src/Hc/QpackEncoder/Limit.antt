-- ===== src/Hc/QpackEncoder/Limit.antt =====
-- The limit on blocked streams, over what the decoder's instructions change.
pub mod Instructions
use minhq.Base.{
  ℕ, ◌+◌, ◌-◌, ◌^◌, ◌≤◌, ◌≡◌, refl, ◌∙◌, inl, inr, ◌&&◌, ◌||◌, ltb, leb, ◌==◌, arith, Option-cases,
  Bool-cases, ltb_false→le, ap, sym,
}
use minhq.Base.Int.{pos, ◌-ℤ◌, pos_part}
use minhq.Hc.QpackTable.Steady.{IfAny}
use minhq.Hc.UsageTracker.{UsageTracker, Counts, ack, cancel, count_blocked_streams}
use minhq.Hc.UsageTracker.Blocked.{ack-count, cancel-count, cancel-count-le, count_mono}
use minhq.Hc.QpackFeedback.{
  Instruction, header_acknowledgment, stream_cancellation, table_state_synchronize,
}
use minhq.Hc.QpackEncoder.{
  QpackEncoder, unblocked, reduce_unacknowledged, with_unacknowledged, update_highest_acknowledged,
  acknowledge_insert, acknowledge_header, acknowledge_reset, obey, set_max_blocked_streams,
  succeeds,
}
use minhq.Hc.QpackEncoder.Steady.{CountsStay}
use minhq.Hc.QpackEncoder.Obeying.{Int-cases}

-- The streams with references to entries that are not acknowledged are counted, and are no more than
-- the peer allows.
pub record IsWithinLimit (e : QpackEncoder) : Type 0 where
  pub blocked : ℕ
  pub counter : e.blocked_streams ≡ pos blocked
  pub counted : count_blocked_streams e.highest_acknowledged e.usage ≤ blocked
  pub allowed : blocked ≤ e.max_blocked_streams

pub stays-IsWithinLimit :
    (e e' : QpackEncoder) → CountsStay e e' → IsWithinLimit e → IsWithinLimit e'
stays-IsWithinLimit e e' c h = record {
  blocked = h.blocked;
  counter = c.blocked ∙ h.counter;
  counted = rw (c.acknowledged, c.usage) h.counted;
  allowed = rw c.limit h.allowed;
}

-- More is acknowledged, and the rest stands.
pub record Advances (increment : ℕ) (e e' : QpackEncoder) : Type 0 where
  pub usage : e'.usage ≡ e.usage
  pub blocked : e'.blocked_streams ≡ e.blocked_streams
  pub limit : e'.max_blocked_streams ≡ e.max_blocked_streams
  pub more : e'.highest_acknowledged ≡ increment + e.highest_acknowledged

pub update_highest_acknowledged-Advances :
    (increment : ℕ) (e : QpackEncoder)
    → IfAny (Advances increment e) (update_highest_acknowledged increment e)
unfolding update_highest_acknowledged with_unacknowledged
update_highest_acknowledged-Advances increment e =
    let highest = increment + e.highest_acknowledged in
    elim (Bool-cases (increment == 0)) [
      | inl nothing ↦ rw (nothing, update_highest_acknowledged) tt
      | inr some_more ↦ elim (Bool-cases (ltb e.table.common.base highest)) [
        | inl unsent ↦ rw (some_more, update_highest_acknowledged, unsent) tt
        | inr sent ↦
            elim (Option-cases
              (reduce_unacknowledged e.table.common highest increment 0 e.unacknowledged_size)) [
                | inl panics ↦ rw (some_more, update_highest_acknowledged, sent, panics) tt
                | inr (z, reduced) ↦
                    rw (some_more, update_highest_acknowledged, sent, reduced)
                      (record { usage = refl; blocked = refl; limit = refl; more = refl })
              ]
      ]
    ]

advanced-IsWithinLimit :
    (increment : ℕ) (e e' : QpackEncoder)
    → Advances increment e e'
    → IsWithinLimit e
    → IsWithinLimit e'
advanced-IsWithinLimit increment e e' a h = record {
  blocked = h.blocked;
  counter = a.blocked ∙ h.counter;
  counted = rw a.usage (
      omega (
        arith,
        h.counted,
        count_mono e.highest_acknowledged e'.highest_acknowledged e.usage (omega (arith, a.more)),
      ));
  allowed = rw a.limit h.allowed;
}

pub succeeds-IsWithinLimit :
    (increment : ℕ) (e : QpackEncoder)
    → IsWithinLimit e
    → IfAny (λ x. IsWithinLimit x.0) (succeeds (update_highest_acknowledged increment e))
succeeds-IsWithinLimit increment e h =
    let advanced = update_highest_acknowledged-Advances increment e in
    elim (Option-cases (update_highest_acknowledged increment e)) [
      | inl panics ↦ rw (panics, succeeds) tt
      | inr (e', done) ↦
          rw (done, succeeds) (advanced-IsWithinLimit increment e e' (rw done at advanced) h)
    ]

-- One blocked stream less.
one_less : (n : ℕ) → 1 ≤ n → pos n -ℤ pos 1 ≡ pos (n - 1)
unfolding ◌-ℤ◌
one_less n h = ground arith

-- The encoder with another usage of the streams and another counter.
retracked-IsWithinLimit :
    (e : QpackEncoder) (usage : UsageTracker) (uses : Counts) (n : ℕ)
    → count_blocked_streams e.highest_acknowledged usage ≤ n
    → n ≤ e.max_blocked_streams
    → IsWithinLimit (record e { usage = usage; uses = uses; blocked_streams = pos n })
retracked-IsWithinLimit e usage uses n counted allowed = record {
  blocked = n;
  counter = refl;
  counted = counted;
  allowed = allowed;
}

pub same_counter-IsWithinLimit :
    (e : QpackEncoder) (usage : UsageTracker) (uses : Counts)
    → IsWithinLimit e
    → count_blocked_streams e.highest_acknowledged usage
      ≤ count_blocked_streams e.highest_acknowledged e.usage
    → IsWithinLimit (record e { usage = usage; uses = uses })
same_counter-IsWithinLimit e usage uses h fewer = record {
  blocked = h.blocked;
  counter = h.counter;
  counted = omega (arith, h.counted, fewer);
  allowed = h.allowed;
}

-- One stream less is blocked, and the counter goes down with it.
pub less-IsWithinLimit :
    (e : QpackEncoder) (usage : UsageTracker) (uses : Counts)
    → IsWithinLimit e
    → count_blocked_streams e.highest_acknowledged usage + 1
      ≡ count_blocked_streams e.highest_acknowledged e.usage
    → IsWithinLimit (unblocked (record e { usage = usage; uses = uses }))
less-IsWithinLimit e usage uses h fewer = record {
  blocked = h.blocked - 1;
  counter = rw h.counter (one_less h.blocked (omega (arith, fewer, h.counted)));
  counted = omega (arith, fewer, h.counted);
  allowed = omega (arith, h.allowed);
}

-- The blocked streams are counted anew for what is going to be acknowledged.
pub recounted-IsWithinLimit :
    (v : ℕ) (e e' : QpackEncoder)
    → IsWithinLimit e
    → Advances v
        (record e {
          blocked_streams = pos (count_blocked_streams (e.highest_acknowledged + v) e.usage);
        })
        e'
    → IsWithinLimit e'
recounted-IsWithinLimit v e e' h a =
    let base = e.highest_acknowledged + v in
    record {
      blocked = count_blocked_streams base e.usage;
      counter = a.blocked;
      counted =
          rw a.usage (count_mono base e'.highest_acknowledged e.usage (omega (arith, a.more)));
      allowed = rw a.limit (
          omega (
            arith,
            count_mono e.highest_acknowledged base e.usage (omega arith),
            h.counted,
            h.allowed,
          ));
    }
