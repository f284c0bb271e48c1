-- ===== src/Hc/QpackEncoder/Obeying.antt =====
-- What an instruction of the decoder does to the encoder.
use minhq.Base.{
  ℕ, ◌+◌, ◌-◌, ◌^◌, ◌≤◌, ◌<◌, ◌≡◌, refl, ◌⊎◌, inl, inr, ◌&&◌, Option, none, some, Error, ltb, leb,
  ◌==◌, arith, Bool-cases, ap,
}
use minhq.Base.Int.{ℤ, pos, negsuc, ◌-ℤ◌}
use minhq.Hc.UsageTracker.{UsageTracker, Counts, ack, cancel}
use minhq.Hc.UsageTracker.Bounding.{IsWithin, ack-IsWithin, cancel-IsWithin}
use minhq.Hc.QpackFeedback.{
  Instruction, header_acknowledgment, stream_cancellation, table_state_synchronize,
}
use minhq.Hc.QpackTable.{QpackEncoderTable}
use minhq.Hc.QpackEncoder.{
  QpackEncoder, Answers, unblocked, acknowledge_insert, acknowledge_header, acknowledge_reset, obey,
}
use minhq.Hc.QpackEncoder.Accounting.{
  IsAccounted, update_highest_acknowledged-IsAccounted, acknowledge_insert-Acknowledges,
}

-- The account of unacknowledged entries is right, and no header block that is not acknowledged refers
-- to an entry that has not been inserted.
pub record IsConsistent (e : QpackEncoder) : Type 0 where
  pub account : IsAccounted e
  pub references : IsWithin e.table.common.base e.usage

-- The outcome is no panic, keeps consistency and the table, and takes no acknowledgment back.
abbrev pub Obeys : QpackEncoder → Answers → Type 0
Obeys e r =
    (e' : QpackEncoder) × (x : Option Error) × (r ≡ some (e', x))
    × IsConsistent e'
    × (e'.table ≡ e.table)
    × (e.highest_acknowledged ≤ e'.highest_acknowledged)

-- The account is of the table and the acknowledged entries alone.
recounted-IsAccounted :
    (e : QpackEncoder) (usage : UsageTracker) (uses : Counts) (b : ℤ)
    → IsAccounted e
    → IsAccounted (record e { usage = usage; uses = uses; blocked_streams = b })
recounted-IsAccounted e usage uses b a = record {
  valid = a.valid;
  within = a.within;
  small = a.small;
  behind = a.behind;
  present = a.present;
  sizes = a.sizes;
}

pub Int-cases : (z : ℤ) → ((n : ℕ) × (z ≡ pos n)) ⊎ ((n : ℕ) × (z ≡ negsuc n))
Int-cases (pos n) = inl (n, refl)
Int-cases (negsuc n) = inr (n, refl)

acknowledge_reset-Obeys :
    (id : ℕ) (e : QpackEncoder) → IsConsistent e → Obeys e (acknowledge_reset id e)
unfolding acknowledge_reset
acknowledge_reset-Obeys id e c =
    let answer = cancel id e.usage e.uses in
    let within = cancel-IsWithin e.table.common.base id e.usage e.uses c.references in
    let cancelled : QpackEncoder = record e { usage = answer.0.0; uses = answer.0.1 } in
    let kept : (b : ℤ) → IsConsistent (record cancelled { blocked_streams = b }) = λ b. record {
      account = recounted-IsAccounted e answer.0.0 answer.0.1 b c.account;
      references = within;
    } in
    elim (Int-cases answer.1) [
      | inr (n, unknown) ↦ (
        cancelled,
        some Error.index_error,
        rw (unknown, acknowledge_reset) refl,
        kept e.blocked_streams,
        refl,
        omega arith,
      )
      | inl (n, known) ↦ elim (Bool-cases (ltb e.highest_acknowledged n)) [
        | inl blocking ↦ (
          unblocked cancelled,
          none,
          rw (known, acknowledge_reset, blocking) refl,
          kept (e.blocked_streams -ℤ pos 1),
          refl,
          omega arith,
        )
        | inr settled ↦ (
          cancelled,
          none,
          rw (known, acknowledge_reset, settled) refl,
          kept e.blocked_streams,
          refl,
          omega arith,
        )
      ]
    ]

acknowledge_header-Obeys :
    (id : ℕ) (e : QpackEncoder) → IsConsistent e → Obeys e (acknowledge_header id e)
unfolding acknowledge_header
acknowledge_header-Obeys id e c =
    let answer = ack id e.usage e.uses in
    let removed = answer.1.0 in
    let (sent, within) = ack-IsWithin e.table.common.base id e.usage e.uses c.references in
    let acked : QpackEncoder = record e { usage = answer.0.0; uses = answer.0.1 } in
    let account = recounted-IsAccounted e answer.0.0 answer.0.1 e.blocked_streams c.account in
    let kept : IsConsistent acked = record { account = account; references = within } in
    elim (Bool-cases (removed == 0)) [
      | inl unknown ↦ (
        acked,
        some Error.index_error,
        rw (unknown, acknowledge_header) refl,
        kept,
        refl,
        omega arith,
      )
      | inr known ↦
          elim (Bool-cases
            (ltb e.highest_acknowledged removed && leb answer.1.1 e.highest_acknowledged)) [
              | inr settled ↦ (
                acked,
                none,
                rw (known, acknowledge_header, settled) refl,
                kept,
                refl,
                omega arith,
              )
              | inl blocking ↦
                  let higher : e.highest_acknowledged < removed = ground arith in
                  let free : QpackEncoder = unblocked acked in
                  let (e', eq, account', same) =
                    update_highest_acknowledged-IsAccounted (removed - e.highest_acknowledged) free
                      (recounted-IsAccounted e answer.0.0 answer.0.1 (e.blocked_streams -ℤ pos 1)
                        c.account)
                      (omega (arith, higher)) (omega (arith, higher, sent)) in
                  (
                    e',
                    none,
                    rw (known, acknowledge_header, blocking, eq) refl,
                    record {
                      account = account';
                      references =
                          rw
                            (
                              ap (λ (e : QpackEncoder). e.table.common.base) same,
                              ap (λ (e : QpackEncoder). e.usage) same,
                            )
                            within;
                    },
                    ap (λ (e : QpackEncoder). e.table) same,
                    omega (arith, ap (λ (e : QpackEncoder). e.highest_acknowledged) same),
                  )
            ]
    ]

acknowledge_insert-Obeys :
    (v : ℕ) (e : QpackEncoder)
    → IsConsistent e
    → e.highest_acknowledged + v < 2 ^ 63
    → Obeys e (acknowledge_insert v e)
acknowledge_insert-Obeys v e c an_int =
    elim (acknowledge_insert-Acknowledges v e c.account an_int) [
      | inl (why, eq) ↦ (e, some Error.index_error, eq, c, refl, omega arith)
      | inr (positive, sent, e', eq, account, higher, counted, table, usage) ↦ (
        e',
        none,
        eq,
        record {
          account = account;
          references = rw (ap (λ (t : QpackEncoderTable). t.common.base) table, usage) c.references;
        },
        table,
        omega (arith, higher),
      )
    ]

-- The sum that a synchronization comes to is an int.
unfoldable pub IsInRange : Instruction → QpackEncoder → Type 0
IsInRange (header_acknowledgment v) e = Unit {0}
IsInRange (stream_cancellation v) e = Unit {0}
IsInRange (table_state_synchronize v) e = e.highest_acknowledged + v < 2 ^ 63

-- Whatever instruction `ServiceAcknowledgments` carries out (a header acknowledgment, a stream
-- cancellation, or a synchronization whose sum with the acknowledged entries is below 2^63), on an
-- encoder whose account of unacknowledged entries is right and whose header blocks refer to
-- inserted entries only, it does not panic, keeps both and the table, and takes no acknowledged
-- entry back.
pub obey-Obeys :
    (i : Instruction) (e : QpackEncoder) → IsConsistent e → IsInRange i e → Obeys e (obey i e)
unfolding obey IsInRange
obey-Obeys (header_acknowledgment v) e c h = acknowledge_header-Obeys v e c
obey-Obeys (stream_cancellation v) e c h = acknowledge_reset-Obeys v e c
obey-Obeys (table_state_synchronize v) e c h = acknowledge_insert-Obeys v e c h
