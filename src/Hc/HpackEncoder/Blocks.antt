-- ===== src/Hc/HpackEncoder/Blocks.antt =====
-- A whole header block, from the encoder to the decoder.
use minhq.Base.{
  ℕ, ◌+◌, ◌*◌, ◌<◌, ◌≡◌, true, Option, refl, sym, ap, subst, ◌∙◌, List, [], ◌++◌, none, Error, ok,
  length, length-append, All, arith,
}
use minhq.Base.Bits.{bits_of, length-bits_of}
use minhq.Io.BitWriter.{BitWriter, Sink, new_bit_writer}
use minhq.Io.BitWriter.View.{view, byte_bits}
use minhq.Io.BitWriter.Padding.{length-byte_bits}
use minhq.Hc.Headers.{HeaderField, validate_pseudo_headers}
use minhq.Hc.Headers.Ordering.{validate_pseudo_headers-loop}
use minhq.Hc.HpackDecoder.{read_header_block}
use minhq.Hc.HpackDecoder.Blocks.{read_header_block-reads}
use minhq.Hc.HpackEncoder.{HpackEncoder, write_capacity_change, write_fields, write_header_block}
use minhq.Hc.HpackEncoder.Fields.{>=>-Sends}
use minhq.Hc.HpackEncoder.FieldLists.{AreCarried, CrossesAll, write_fields-CrossesAll}
use minhq.Hc.HpackEncoder.Capacities.{IsReady, change-Leads}
use mathlib.Core.List.{append-nil}

-- A writer that has been given whole octets holds nothing.
held_nothing :
    (bw : BitWriter) (bits : List ℕ) (k : ℕ)
    → bw.saved_bits < 8
    → view bw ≡ bits
    → length bits ≡ 8 * k
    → (bw.saved_bits ≡ 0) × (byte_bits bw.sink.bytes ≡ bits)
unfolding bits_of
held_nothing bw bits k small e whole =
    let held : bw.saved_bits ≡ 0 = omega (
      arith,
      ap length e,
      length-append (byte_bits bw.sink.bytes) (bits_of bw.saved_bits bw.saved),
      length-bits_of bw.saved_bits bw.saved,
      length-byte_bits bw.sink.bytes,
    ) in
    (held, sym (append-nil (byte_bits bw.sink.bytes)) ∙ (rw held at e))

-- What was written is read.
pub record ReadsBack (hs : List HeaderField) (e : HpackEncoder)
    (s : HpackEncoder × BitWriter × Option Error) : Type 0 where
  pub no_error : s.2 ≡ none
  pub nothing_held : s.1.saved_bits ≡ 0
  pub fields :
      (read_header_block e.table (record { bytes = s.1.sink.bytes; stop = Error.eof })).2 ≡ ok hs
  pub same_table :
      (read_header_block e.table (record { bytes = s.1.sink.bytes; stop = Error.eof })).0
      ≡ s.0.table
  pub ready : IsReady s.0
  pub adopted : s.0.table.capacity ≡ e.next_capacity

-- `WriteHeaderBlock`, on a transport that accepts, from an encoder whose table is valid and whose
-- capacities are below 2^63, the smallest of those to announce at most the last (as `SetCapacity`
-- leaves them), of fields in order whose strings are of bytes, shorter than 2^58 and not empty if
-- Huffman coding is always wanted, returns nil and holds no bit back; `ReadHeaderBlock` of what
-- was written, by a decoder with the encoder's table from before, returns the same fields and ends
-- with the encoder's new table, whose capacity is the one set last, and the encoder is ready for
-- the next block.
pub write_header_block-ReadsBack :
    (hs : List HeaderField) (e : HpackEncoder) (sink : Sink)
    → IsReady e
    → All (AreCarried e.huffman_preference) hs
    → validate_pseudo_headers hs ≡ none
    → sink.bytes ≡ []
    → sink.answers ≡ []
    → ReadsBack hs e (write_header_block hs e sink)
unfolding write_header_block new_bit_writer bits_of
write_header_block-ReadsBack hs e sink ready carried in_order empty accepting =
    let (e', l, exact) = change-Leads e ready in
    let c : CrossesAll e' (write_fields true hs) hs =
      write_fields-CrossesAll true hs e' l.ready.sound
        (subst (λ p. All (AreCarried p) hs) (sym l.same_preference) carried)
        (validate_pseudo_headers-loop hs in_order) in
    let (after, w) =
      >=>-Sends l.bits c.bits e e' c.after write_capacity_change (write_fields true hs) l.sends
        c.sends (new_bit_writer sink)
        (record { small = omega arith; accepting = accepting; octets = rw empty tt }) in
    let s = write_header_block hs e sink in
    let bits = l.bits ++ c.bits in
    let started : view (new_bit_writer sink) ≡ [] = rw empty refl in
    let (held, out) =
      held_nothing s.1 bits (l.whole.0 + c.whole.0) w.healthy.small
        (w.appended ∙ ap (λ x. x ++ bits) started)
        (omega (arith, l.whole.1, c.whole.1, length-append l.bits c.bits)) in
    let (table, fields) =
      read_header_block-reads (l.rounds + c.rounds) s.1.sink.bytes bits e.table c.after.table hs
        w.healthy.octets out (omega (arith, l.few, c.few, length-append l.bits c.bits)) in_order
        (l.reads c.rounds c.bits c.after.table hs c.reads) in
    record {
      no_error = w.no_error;
      nothing_held = held;
      fields = fields;
      same_table = table ∙ ap (λ (x : HpackEncoder). x.table) (sym after);
      ready = rw after (record {
        sound = c.sound;
        ordered = rw c.others l.ready.ordered;
        next_small = rw c.others l.ready.next_small;
      });
      adopted = rw after (c.capacity ∙ exact);
    }
