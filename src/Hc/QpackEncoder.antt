-- ===== src/Hc/QpackEncoder.antt =====
-- hc/qpackencoder.go: the state of `QpackEncoder`, its insertions and what the peer's acknowledgments
-- change. A panic is `none`.
pub mod Accounting
pub mod Inserting
pub mod Obeying
pub mod Limit
pub mod Steady
pub mod Overshooting
pub mod Instructions
use minhq.Base.{
  ℕ, zero, suc, ◌+◌, ◌-◌, ◌*◌, ◌^◌, List, [], ◌∷◌, Bool, true, false, ◌||◌, ◌&&◌, Option, none,
  some, Error, Result, ok, err, ltb, leb, ◌==◌, length, map, if◌then◌else◌,
}
use minhq.Base.Words.{u64}
use minhq.Base.Int.{ℤ, pos, negsuc, ◌-ℤ◌}
use minhq.Base.Names.{Name}
use minhq.Io.BitReader.{BitReader, Reads, ◌>>=◌, pure, read_bit}
use minhq.Hc.Integers.{read_int}
use minhq.Hc.Table.{DynamicEntry, EvictionCheck, TableCommon, size, get_dynamic}
use minhq.Hc.QpackTable.{
  QpackEncoderTable, insert_entry, set_encoder_capacity, set_referenceable_limit,
}
use minhq.Hc.UsageTracker.{Counts, UsageTracker, ack, cancel, count_blocked_streams}
use minhq.Hc.QpackFeedback.{
  Instruction, header_acknowledgment, stream_cancellation, table_state_synchronize,
}

-- `uses` is the store of the entries' use counts. `blocked_streams` may be taken below 0.
pub record QpackEncoder : Type 0 where
  pub table : QpackEncoderTable
  pub usage : UsageTracker
  pub uses : Counts
  pub max_blocked_streams : ℕ
  pub highest_acknowledged : ℕ
  pub unacknowledged_size : ℕ
  pub blocked_streams : ℤ

-- The entries of the table with their use counts as they stand.
pub with_uses : Counts → QpackEncoderTable → QpackEncoderTable
with_uses uses qt = record qt {
  common = record (qt.common) {
    dynamic = map (λ (e : DynamicEntry). record e { usage_count = uses e.base }) qt.common.dynamic;
  };
}

-- The table's answer: the entry is `none` when it did not go in.
adding :
    {S : Type 0}
    → ℕ
    → S
    → QpackEncoder
    → Option ((QpackEncoderTable × S) × Bool)
    → Option ((QpackEncoder × S) × Bool)
adding z s encoder none = none
adding z s encoder (some ((qt, s'), false)) = some ((record encoder { table = qt }, s'), false)
adding z s encoder (some ((qt, s'), true)) = some (
  (record encoder { table = qt; unacknowledged_size = u64 (encoder.unacknowledged_size + z) }, s'),
  true,
)

-- `insert`: an entry that would not be usable is not added.
pub insert_checked :
    {S : Type 0}
    → EvictionCheck S
    → Name
    → Name
    → QpackEncoder
    → S
    → Option ((QpackEncoder × S) × Bool)
unfolding adding
insert_checked evict name value encoder s =
    let entry : DynamicEntry = record { name = name; value = value; base = 0; usage_count = 0 } in
    let inserted = insert_entry evict name value (with_uses encoder.uses encoder.table) s in
    if ltb encoder.table.referenceable_limit (u64 (size entry + encoder.unacknowledged_size))
    then some ((encoder, s), false)
    else adding (size entry) s encoder inserted

-- The loop of `updateHighestAcknowledged` from the index `i`, over the number of rounds left; `none`
-- is the call on an entry that is not there.
pub reduce_unacknowledged : TableCommon → ℕ → ℕ → ℕ → ℕ → Option ℕ
reduce_unacknowledged t highest zero i z = some z
reduce_unacknowledged t highest (suc rounds) i z = elim (get_dynamic t (pos i) (pos highest)) [
  | none ↦ none
  | some e ↦ reduce_unacknowledged t highest rounds (i + 1) (u64 (z + (2 ^ 64 - size e)))
]

with_unacknowledged : QpackEncoder → ℕ → Option ℕ → Option QpackEncoder
with_unacknowledged encoder highest none = none
with_unacknowledged encoder highest (some z) =
    some (record encoder { highest_acknowledged = highest; unacknowledged_size = z })

pub update_highest_acknowledged : ℕ → QpackEncoder → Option QpackEncoder
unfolding with_unacknowledged
update_highest_acknowledged increment encoder =
    let highest = increment + encoder.highest_acknowledged in
    if increment == 0
    then none
    else if ltb encoder.table.common.base highest
    then none
    else with_unacknowledged encoder highest
        (reduce_unacknowledged encoder.table.common highest increment 0 encoder.unacknowledged_size)

-- A call that changes the encoder: the new state and its error, or a panic.
abbrev pub Answers : Type 0
Answers = Option (QpackEncoder × Option Error)

abbrev pub succeeds : Option QpackEncoder → Answers
succeeds none = none
succeeds (some encoder) = some (encoder, none)

-- The increment is a uint64, converted to an int: from 2^63 on it is negative, and a sum of 2^63 or
-- more wraps to a negative one, passes the test and ends in the panic of a missing entry.
pub acknowledge_insert : ℕ → QpackEncoder → Answers
acknowledge_insert v encoder =
    let base = encoder.highest_acknowledged + v in
    let counted = record encoder {
      blocked_streams = pos (count_blocked_streams base encoder.usage);
    } in
    if v == 0 || leb (2 ^ 63) v
    then some (encoder, some Error.index_error)
    else if leb (2 ^ 63) base
    then none
    else if ltb encoder.table.common.base base
    then some (encoder, some Error.index_error)
    else succeeds (update_highest_acknowledged v counted)

abbrev unblocked : QpackEncoder → QpackEncoder
unblocked encoder = record encoder { blocked_streams = encoder.blocked_streams -ℤ pos 1 }

pub acknowledge_header : ℕ → QpackEncoder → Answers
acknowledge_header id encoder =
    let ((usage, uses), (removed, newest)) = ack id encoder.usage encoder.uses in
    let acked = record encoder { usage = usage; uses = uses } in
    if removed == 0
    then some (acked, some Error.index_error)
    else if ltb encoder.highest_acknowledged removed && leb newest encoder.highest_acknowledged
    then succeeds
        (update_highest_acknowledged (removed - encoder.highest_acknowledged) (unblocked acked))
    else some (acked, none)

pub acknowledge_reset : ℕ → QpackEncoder → Answers
acknowledge_reset id encoder =
    let ((usage, uses), largest) = cancel id encoder.usage encoder.uses in
    let cancelled = record encoder { usage = usage; uses = uses } in
    elim largest [
      | negsuc n ↦ some (cancelled, some Error.index_error)
      | pos n ↦
          if ltb encoder.highest_acknowledged n
          then some (unblocked cancelled, none)
          else some (cancelled, none)
    ]

-- One instruction as `ServiceAcknowledgments` reads it.
pub read_other_instruction : Reads Instruction
read_other_instruction = do
  b ← read_bit
  v ← read_int 6
  pure (if b == 0 then table_state_synchronize v else stream_cancellation v)

pub read_instruction : Reads Instruction
read_instruction = read_bit >>= λ b.
    (if b == 1
      then (read_int 7 >>= λ v. pure (header_acknowledgment v))
      else read_other_instruction)

pub obey : Instruction → QpackEncoder → Answers
obey (header_acknowledgment v) encoder = acknowledge_header v encoder
obey (stream_cancellation v) encoder = acknowledge_reset v encoder
obey (table_state_synchronize v) encoder = acknowledge_insert v encoder

-- The loop of `ServiceAcknowledgments`, with the rounds that are left. The error of the call goes to
-- a variable of the case that shadows the one that is tested, so it is lost.
pub service_loop : ℕ → QpackEncoder → BitReader → Option (QpackEncoder × BitReader × Error)
service_loop zero encoder r = none
service_loop (suc rounds) encoder r =
    let (r', x) = read_instruction r in
    elim x [
      | err e ↦ some (encoder, r', e)
      | ok i ↦ elim (obey i encoder) [
        | none ↦ none
        | some (encoder', e) ↦ service_loop rounds encoder' r'
      ]
    ]

-- `none` is the panic.
pub set_max_blocked_streams : ℕ → QpackEncoder → Option QpackEncoder
set_max_blocked_streams m encoder =
    let set = record encoder { max_blocked_streams = m } in
    elim encoder.blocked_streams [
      | pos n ↦ if ltb m n then none else some set
      | negsuc n ↦ some set
    ]

abbrev with_table : QpackEncoder → Option QpackEncoderTable → Option QpackEncoder
with_table encoder none = none
with_table encoder (some qt) = some (record encoder { table = qt })

pub set_table_capacity : ℕ → QpackEncoder → Option QpackEncoder
set_table_capacity capacity encoder =
    with_table encoder (set_encoder_capacity capacity encoder.table)

pub set_encoder_limit : ℕ → QpackEncoder → QpackEncoder
set_encoder_limit limit encoder = record encoder {
  table = set_referenceable_limit limit encoder.table;
}
