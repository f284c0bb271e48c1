-- ===== src/Hc/HpackEncoder/FieldLists.antt =====
-- The fields of a header block, from the encoder to the decoder.
use minhq.Base.{
  ℕ, suc, ◌+◌, ◌≤◌, ◌≡◌, refl, sym, ap, subst, ◌∙◌, List, [], ◌∷◌, ◌++◌, Bool, true, false, none,
  length, length-append, All, arith, inl, inr,
}
use minhq.Io.BitWriter.Wrote.{done-Wrote}
use minhq.Hc.Strings.{HuffmanCodingChoice}
use minhq.Hc.Headers.{HeaderField, validate_loop}
use minhq.Hc.Headers.Ordering.{validate_loop-cons}
use minhq.Hc.HpackDecoder.{Round}
use minhq.Hc.HpackDecoder.Blocks.{ReadsBlock, reads-nothing, reads-field}
use minhq.Hc.HpackEncoder.{HpackEncoder, Encodes, ◌>=>◌, write_field, write_fields}
use minhq.Hc.HpackEncoder.Crossing.{IsCarried, Octets, IsSound}
use minhq.Hc.HpackEncoder.Fields.{Sends, >=>-Sends, Crosses, write_field-Crosses}

-- A step that writes some fields: whole octets, that the decoder reads in at most one round for each
-- bit.
pub record CrossesAll (e : HpackEncoder) (m : Encodes) (hs : List HeaderField) : Type 0 where
  pub after : HpackEncoder
  pub bits : List ℕ
  pub rounds : ℕ
  pub whole : Octets 0 bits
  pub few : rounds ≤ length bits
  pub sends : Sends bits e after m
  pub reads : ReadsBlock rounds bits e.table after.table hs
  pub sound : IsSound after.table
  pub capacity : after.table.capacity ≡ e.table.capacity
  pub others : after ≡ record e { table = after.table }

abbrev pub AreCarried : HuffmanCodingChoice → HeaderField → Type 0
AreCarried c h = IsCarried c h.name × IsCarried c h.value

nothing-CrossesAll : (e : HpackEncoder) → IsSound e.table → CrossesAll e (λ e bw. (e, bw, none)) []
nothing-CrossesAll e sound = record {
  after = e;
  bits = [];
  rounds = 0;
  whole = (0, refl);
  few = omega arith;
  sends = λ bw u. (refl, done-Wrote bw u);
  reads = reads-nothing e.table;
  sound = sound;
  capacity = refl;
  others = refl;
}

field-CrossesAll :
    (e : HpackEncoder) (m k : Encodes) (h : HeaderField) (hs : List HeaderField)
    → (c : Crosses e m (Round.appended h)) → CrossesAll c.after k hs
    → CrossesAll e (m >=> k) (h ∷ hs)
field-CrossesAll e m k h hs c d = record {
  after = d.after;
  bits = c.bits ++ d.bits;
  rounds = suc d.rounds;
  whole = (c.whole.0 + d.whole.0, omega (arith, c.whole.1, d.whole.1, length-append c.bits d.bits));
  few = omega (arith, c.some_bits, d.few, length-append c.bits d.bits);
  sends = >=>-Sends c.bits d.bits e c.after d.after m k c.sends d.sends;
  reads =
      reads-field d.rounds c.bits d.bits e.table c.after.table d.after.table h hs c.receives
        d.reads;
  sound = d.sound;
  capacity = d.capacity ∙ c.capacity;
  others = d.others ∙ ap (λ (x : HpackEncoder). record x { table = d.after.table }) c.others;
}

pub write_fields-CrossesAll :
    (pseudo : Bool) (hs : List HeaderField) (e : HpackEncoder)
    → IsSound e.table
    → All (AreCarried e.huffman_preference) hs
    → validate_loop pseudo hs ≡ none
    → CrossesAll e (write_fields pseudo hs) hs
unfolding write_fields
write_fields-CrossesAll pseudo [] e sound carried in_order = nothing-CrossesAll e sound
write_fields-CrossesAll pseudo (h ∷ hs) e sound (h_carried, hs_carried) in_order =
    let c = write_field-Crosses e h sound h_carried.0 h_carried.1 in
    let same : e.huffman_preference ≡ c.after.huffman_preference =
      sym (ap (λ (x : HpackEncoder). x.huffman_preference) c.others) in
    let still = subst (λ p. All (AreCarried p) hs) same hs_carried in
    elim (validate_loop-cons pseudo h hs in_order) [
      | inl (colon, first, rest) ↦
          rw (colon, write_fields, first)
            (field-CrossesAll e (write_field h) (write_fields true hs) h hs c
              (write_fields-CrossesAll true hs c.after c.sound still rest))
      | inr (other, rest) ↦
          rw (other, write_fields)
            (field-CrossesAll e (write_field h) (write_fields false hs) h hs c
              (write_fields-CrossesAll false hs c.after c.sound still rest))
    ]
