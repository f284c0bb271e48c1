-- ===== src/Hc/QpackWriter/Blocks/Limit.antt =====
-- No more streams wait for the decoder than the peer allows, over the writing of a header block.
use minhq.Base.{
  ℕ, ◌+◌, ◌≤◌, ◌≡◌, inl, inr, List, [], ◌∷◌, true, Option, none, some, Error, ltb, arith,
  Option-cases, Bool-cases,
}
use minhq.Base.Int.{pos, ◌+ℤ◌}
use minhq.Base.Names.{Name}
use minhq.Io.BitWriter.{Sink, new_bit_writer}
use minhq.Hc.Strings.{HuffmanCodingChoice}
use minhq.Hc.Headers.{HeaderField}
use minhq.Hc.IndexPreferences.{IndexPrefs}
use minhq.Hc.QpackTable.Steady.{IfAny}
use minhq.Hc.UsageTracker.{
  HeaderBlockUsage, Counts, StreamUsage, new_block, get, find, stream_max, count_blocked_streams,
}
use minhq.Hc.UsageTracker.Blocked.{get-held, record_usage-count, fill_newest-count}
use minhq.Hc.QpackEncoder.{QpackEncoder}
use minhq.Hc.QpackEncoder.Limit.{IsWithinLimit, stays-IsWithinLimit}
use minhq.Hc.QpackEncoder.Steady.{CountsStay, CountsStay-refl}
use minhq.Hc.QpackWriter.{Slot, WriterState, Stream, init_headers, setup_usage, is_newly_blocked}
use minhq.Hc.QpackWriter.Blocking.{Keeps}
use minhq.Hc.QpackWriter.Blocks.Newly.{blocks, setup_usage-Keeps, newly_blocked, not_newly_blocked}
use minhq.Hc.QpackWriter.Blocks.Uses.{UsesWithin, write_slots-UsesWithin}
use minhq.Hc.QpackWriter.Blocks.Rounds.{AllWithin, AllHold, change_slots-Holds}
use minhq.Hc.QpackWriter.Blocks.{
  change_slots, settle, blocking_allowed, write_table_changes, write_prefix, with_block,
  write_block, qpack_write_header_block,
}

-- The block that is going to refer up to `largest_base` has been counted.
record Reserves (id largest_base : ℕ) (e : QpackEncoder) : Type 0 where
  su : StreamUsage
  known : find id e.usage ≡ some su
  blocked : ℕ
  counter : e.blocked_streams ≡ pos blocked
  counted :
      count_blocked_streams e.highest_acknowledged e.usage
        + blocks e.highest_acknowledged largest_base (stream_max su)
      ≤ blocked
  allowed : blocked ≤ e.max_blocked_streams

raised : (m n : ℕ) → blocking_allowed m (pos n) ≡ true → n + 1 ≤ m
unfolding blocking_allowed
raised m n h = ground arith

raised_counter : (n : ℕ) → pos n +ℤ pos 1 ≡ pos (n + 1)
unfolding ◌+ℤ◌
raised_counter n = ground arith

-- Behind `writeTableChanges` the block is counted in advance.
settle-Reserves :
    (id : ℕ) (e : QpackEncoder) (s : Stream × WriterState) (su : StreamUsage)
    → IsWithinLimit e
    → CountsStay e s.0.encoder
    → find id e.usage ≡ some su
    → Keeps
        (setup_usage
          (stream_max su)
          e.highest_acknowledged
          (blocking_allowed e.max_blocked_streams e.blocked_streams))
        s.1
    → Reserves id s.1.largest_base (settle id s).0.encoder
unfolding settle
settle-Reserves id e (stream, state) su h c known k =
    let e' = stream.encoder in
    let high = e.highest_acknowledged in
    let known' : find id e'.usage ≡ some su = rw c.usage known in
    let (same, su', there, largest) =
      record_usage-count e'.highest_acknowledged id state.largest_base e'.usage su known' in
    let count : count_blocked_streams e'.highest_acknowledged e'.usage ≤ h.blocked =
      rw (c.acknowledged, c.usage) h.counted in
    elim (Bool-cases (is_newly_blocked e'.highest_acknowledged state)) [
      | inl newly ↦
          let may = newly_blocked (stream_max su) high _ state k (rw c.acknowledged at newly) in
          record {
            su = su';
            known = there;
            blocked = h.blocked + 1;
            counter = rw (newly, c.blocked, h.counter) (raised_counter h.blocked);
            counted = rw same (ground (arith, count));
            allowed = rw c.limit (raised e.max_blocked_streams h.blocked (rw h.counter at may));
          }
      | inr not_newly ↦
          let none_new =
            not_newly_blocked (stream_max su) high _ state k (rw c.acknowledged at not_newly) in
          let none_new' : blocks e'.highest_acknowledged state.largest_base (stream_max su) ≡ 0 =
            rw c.acknowledged none_new in
          record {
            su = su';
            known = there;
            blocked = h.blocked;
            counter = rw (not_newly, c.blocked) h.counter;
            counted = rw (same, largest) (omega (arith, none_new', count));
            allowed = rw c.limit h.allowed;
          }
    ]

-- What `writeTableChanges` leaves: with an error the limit is kept, and else the block is counted too and
-- the slots are within it.
Prepares : ℕ → (Stream × WriterState) × List Slot × Option Error → Type 0
Prepares id (s, slots, some e) = IsWithinLimit s.0.encoder
Prepares id (s, slots, none) =
    Reserves id s.1.largest_base s.0.encoder × AllWithin s.1.largest_base slots

init_headers-AllWithin :
    (to_lower : Name → Name) (headers : List HeaderField)
    → AllWithin 0 (init_headers to_lower headers)
unfolding init_headers
init_headers-AllWithin to_lower [] = tt
init_headers-AllWithin to_lower (h ∷ hs) =
    (record { full = tt; name = tt }, init_headers-AllWithin to_lower hs)

write_table_changes-Prepares :
    (to_lower : Name → Name) (huffman : HuffmanCodingChoice) (prefs : IndexPrefs) (id : ℕ)
    (headers : List HeaderField) (stream : Stream)
    → IsWithinLimit stream.encoder
    → IfAny (Prepares id) (write_table_changes to_lower huffman prefs id headers stream)
unfolding write_table_changes settle Prepares AllHold setup_usage
write_table_changes-Prepares to_lower huffman prefs id headers stream h =
    let e = stream.encoder in
    let encoder = record e { usage = (get id e.usage).0 } in
    let (su_held, known, same) = get-held e.highest_acknowledged id e.usage in
    let known' : find id encoder.usage ≡ some (get id e.usage).1 = rw su_held known in
    let started : IsWithinLimit encoder = record {
      blocked = h.blocked;
      counter = h.counter;
      counted = rw same h.counted;
      allowed = h.allowed;
    } in
    let may = blocking_allowed e.max_blocked_streams e.blocked_streams in
    let largest = stream_max (get id e.usage).1 in
    let s0 = setup_usage largest e.highest_acknowledged may in
    let start : Stream = record stream { encoder = encoder } in
    let loop =
      change_slots-Holds s0 huffman prefs encoder (init_headers to_lower headers) start s0
        (CountsStay-refl encoder) (setup_usage-Keeps largest e.highest_acknowledged may)
        (init_headers-AllWithin to_lower headers) in
    elim (Option-cases (change_slots huffman prefs (init_headers to_lower headers) (start, s0))) [
      | inl panics ↦ rw (panics, write_table_changes) tt
      | inr ((s, slots, some x), out) ↦
          let (c, k, low, w) = rw out at loop in
          rw (out, write_table_changes) (stays-IsWithinLimit encoder s.0.encoder c started)
      | inr ((s, slots, none), out) ↦
          let (c, k, low, w) = rw out at loop in
          rw (out, write_table_changes)
            (settle-Reserves id encoder s (get id e.usage).1 started c known' k, w)
    ]

-- What the block comes to refer to has been counted.
with_block-IsWithinLimit :
    (id l : ℕ) (uses : HeaderBlockUsage × Counts) (e : QpackEncoder)
    → UsesWithin l uses
    → Reserves id l e
    → IsWithinLimit (with_block id l uses e)
unfolding with_block
with_block-IsWithinLimit id l (block, counts) e w r =
    let filled = fill_newest-count e.highest_acknowledged id block e.usage r.su r.known in
    elim (Bool-cases (ltb 0 l)) [
      | inl refers ↦ record {
        blocked = r.blocked;
        counter = r.counter;
        counted = rw refers (ground (arith, filled, r.counted, w));
        allowed = r.allowed;
      }
      | inr plain ↦ record {
        blocked = r.blocked;
        counter = r.counter;
        counted = rw plain (omega (arith, r.counted));
        allowed = r.allowed;
      }
    ]

reserved-IsWithinLimit : (id l : ℕ) (e : QpackEncoder) → Reserves id l e → IsWithinLimit e
reserved-IsWithinLimit id l e r = record {
  blocked = r.blocked;
  counter = r.counter;
  counted = omega (arith, r.counted);
  allowed = r.allowed;
}

write_block-IsWithinLimit :
    (huffman : HuffmanCodingChoice) (id : ℕ) (slots : List Slot) (state : WriterState)
    (e : QpackEncoder) (sink : Sink)
    → Reserves id state.largest_base e
    → AllWithin state.largest_base slots
    → IfAny (λ x. IsWithinLimit x.0) (write_block huffman id slots state e sink)
unfolding write_block
write_block-IsWithinLimit huffman id slots state e sink r w =
    let l = state.largest_base in
    elim (Option-cases (write_prefix e.table.common.capacity l)) [
      | inl panics ↦ rw (panics, write_block) tt
      | inr (m, prefix) ↦ elim (Option-cases (m (new_bit_writer sink)).1) [
        | inr (x, failed) ↦ rw (prefix, write_block, failed) (reserved-IsWithinLimit id l e r)
        | inl sent ↦
            rw (prefix, write_block, sent)
              (with_block-IsWithinLimit id l _ e
                (write_slots-UsesWithin huffman l slots (new_block, e.uses)
                  (m (new_bit_writer sink)).0 w (omega arith))
                r)
      ]
    ]

-- X
pub qpack_write_header_block-IsWithinLimit :
    (to_lower : Name → Name) (huffman : HuffmanCodingChoice) (prefs : IndexPrefs) (id : ℕ)
    (headers : List HeaderField) (stream : Stream) (sink : Sink)
    → IsWithinLimit stream.encoder
    → IfAny
        (λ x. IsWithinLimit x.0.encoder)
        (qpack_write_header_block to_lower huffman prefs id headers stream sink)
unfolding qpack_write_header_block Prepares
qpack_write_header_block-IsWithinLimit to_lower huffman prefs id headers stream sink h =
    let first = write_table_changes-Prepares to_lower huffman prefs id headers stream h in
    elim (Option-cases (write_table_changes to_lower huffman prefs id headers stream)) [
      | inl panics ↦ rw (panics, qpack_write_header_block) tt
      | inr (((stream', state), slots, some x), out) ↦
          rw (out, qpack_write_header_block) (rw out at first)
      | inr (((stream', state), slots, none), out) ↦
          let (r, w) = rw out at first in
          let block = write_block-IsWithinLimit huffman id slots state stream'.encoder sink r w in
          elim (Option-cases (write_block huffman id slots state stream'.encoder sink)) [
            | inl panics ↦ rw (out, qpack_write_header_block, panics) tt
            | inr (done, written) ↦
                rw (out, qpack_write_header_block, written) (rw written at block)
          ]
    ]
