-- ===== src/Hc/QpackEncoder/Limit/Instructions.antt =====
-- Each instruction of the decoder, and a new limit, keep the limit on blocked streams.
use minhq.Base.{
  ℕ, ◌+◌, ◌-◌, ◌^◌, ◌≡◌, ◌∙◌, inl, inr, ◌&&◌, ◌||◌, ltb, leb, ◌==◌, arith, Option-cases, Bool-cases,
  ltb_false→le, ap, sym,
}
use minhq.Base.Int.{pos, pos_part}
use minhq.Hc.QpackTable.Steady.{IfAny}
use minhq.Hc.UsageTracker.{ack, cancel, count_blocked_streams}
use minhq.Hc.UsageTracker.Blocked.{ack-count, cancel-count, cancel-count-le}
use minhq.Hc.QpackFeedback.{
  Instruction, header_acknowledgment, stream_cancellation, table_state_synchronize,
}
use minhq.Hc.QpackEncoder.{
  QpackEncoder, update_highest_acknowledged, acknowledge_insert, acknowledge_header,
  acknowledge_reset, obey, set_max_blocked_streams,
}
use minhq.Hc.QpackEncoder.Obeying.{Int-cases}
use minhq.Hc.QpackEncoder.Limit.{
  IsWithinLimit, update_highest_acknowledged-Advances, succeeds-IsWithinLimit,
  same_counter-IsWithinLimit, less-IsWithinLimit, recounted-IsWithinLimit,
}

acknowledge_header-IsWithinLimit :
    (id : ℕ) (e : QpackEncoder)
    → IsWithinLimit e
    → IfAny (λ x. IsWithinLimit x.0) (acknowledge_header id e)
unfolding acknowledge_header
acknowledge_header-IsWithinLimit id e h =
    let answer = ack id e.usage e.uses in
    let count = ack-count e.highest_acknowledged id e.usage e.uses in
    let usage = answer.0.0 in
    let uses = answer.0.1 in
    elim (Bool-cases (answer.1.0 == 0)) [
      | inl unknown ↦
          rw (unknown, acknowledge_header)
            (same_counter-IsWithinLimit e usage uses h (omega (arith, count)))
      | inr known ↦
          elim (Bool-cases
            (ltb e.highest_acknowledged answer.1.0 && leb answer.1.1 e.highest_acknowledged)) [
              | inr settled ↦
                  rw (known, acknowledge_header, settled)
                    (same_counter-IsWithinLimit e usage uses h (omega (arith, count)))
              | inl blocking ↦
                  rw (known, acknowledge_header, blocking)
                    (succeeds-IsWithinLimit (answer.1.0 - e.highest_acknowledged) _
                      (less-IsWithinLimit e usage uses h (rw blocking at count)))
            ]
    ]

acknowledge_reset-IsWithinLimit :
    (id : ℕ) (e : QpackEncoder)
    → IsWithinLimit e
    → IfAny (λ x. IsWithinLimit x.0) (acknowledge_reset id e)
unfolding acknowledge_reset
acknowledge_reset-IsWithinLimit id e h =
    let answer = cancel id e.usage e.uses in
    let high = e.highest_acknowledged in
    let usage = answer.0.0 in
    let uses = answer.0.1 in
    let fewer = cancel-count-le high id e.usage e.uses in
    elim (Int-cases answer.1) [
      | inr (n, unknown) ↦
          rw (unknown, acknowledge_reset) (same_counter-IsWithinLimit e usage uses h fewer)
      | inl (n, known) ↦
          let count = cancel-count high id n e.usage e.uses known in
          elim (Bool-cases (ltb high n)) [
            | inl blocking ↦
                rw (known, acknowledge_reset, blocking)
                  (less-IsWithinLimit e usage uses h (rw blocking at count))
            | inr settled ↦
                rw (known, acknowledge_reset, settled)
                  (same_counter-IsWithinLimit e usage uses h fewer)
          ]
    ]

acknowledge_insert-IsWithinLimit :
    (v : ℕ) (e : QpackEncoder)
    → IsWithinLimit e
    → IfAny (λ x. IsWithinLimit x.0) (acknowledge_insert v e)
unfolding acknowledge_insert
acknowledge_insert-IsWithinLimit v e h =
    let base = e.highest_acknowledged + v in
    let counted : QpackEncoder = record e {
      blocked_streams = pos (count_blocked_streams base e.usage);
    } in
    let advanced = update_highest_acknowledged-Advances v counted in
    elim (Bool-cases (v == 0 || leb (2 ^ 63) v)) [
      | inl refused ↦ rw (refused, acknowledge_insert) h
      | inr in_range ↦ elim (Bool-cases (leb (2 ^ 63) base)) [
        | inl wraps ↦ rw (in_range, acknowledge_insert, wraps) tt
        | inr an_int ↦ elim (Bool-cases (ltb e.table.common.base base)) [
          | inl unsent ↦ rw (in_range, acknowledge_insert, an_int, unsent) h
          | inr sent ↦ elim (Option-cases (update_highest_acknowledged v counted)) [
            | inl panics ↦ rw (in_range, acknowledge_insert, an_int, sent, panics) tt
            | inr (e', done) ↦
                rw (in_range, acknowledge_insert, an_int, sent, done)
                  (recounted-IsWithinLimit v e e' h (rw done at advanced))
          ]
        ]
      ]
    ]

-- Any instruction of the decoder keeps the limit.
pub obey-IsWithinLimit :
    (i : Instruction) (e : QpackEncoder)
    → IsWithinLimit e
    → IfAny (λ x. IsWithinLimit x.0) (obey i e)
unfolding obey
obey-IsWithinLimit (header_acknowledgment v) e h = acknowledge_header-IsWithinLimit v e h
obey-IsWithinLimit (stream_cancellation v) e h = acknowledge_reset-IsWithinLimit v e h
obey-IsWithinLimit (table_state_synchronize v) e h = acknowledge_insert-IsWithinLimit v e h

pub set_max_blocked_streams-IsWithinLimit :
    (m : ℕ) (e : QpackEncoder) → IsWithinLimit e → IfAny IsWithinLimit (set_max_blocked_streams m e)
unfolding set_max_blocked_streams
set_max_blocked_streams-IsWithinLimit m e h = elim (Int-cases e.blocked_streams) [
  | inl (n, counter) ↦ elim (Bool-cases (ltb m n)) [
    | inl below ↦ rw (counter, set_max_blocked_streams, below) tt
    | inr enough ↦
        let same : h.blocked ≡ n = ap pos_part (sym h.counter ∙ counter) in
        rw (counter, set_max_blocked_streams, enough)
          (record {
            blocked = h.blocked;
            counter = h.counter;
            counted = h.counted;
            allowed = rw same (ltb_false→le _ _ enough);
          })
  ]
  | inr (n, counter) ↦ cc
]
