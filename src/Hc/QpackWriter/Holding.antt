-- ===== src/Hc/QpackWriter/Holding.antt =====
-- What insertions keep of the encoder's counts and of the state of a block.
use minhq.Base.{
  ◌-◌, ◌≡◌, refl, inl, inr, ◌⊎◌, List, [], ◌∷◌, Bool, true, false, Option, none, some, Option-cases,
}
use minhq.Io.BitWriter.{BitWriter, Writes, ◌>>◌, write_bits}
use minhq.Hc.Integers.{write_int}
use minhq.Hc.Strings.{HuffmanCodingChoice, write_string_raw}
use minhq.Hc.Table.{DynamicEntry, Entry}
use minhq.Hc.QpackTable.Steady.{IfAny}
use minhq.Hc.QpackEncoder.{QpackEncoder}
use minhq.Hc.QpackEncoder.Steady.{CountsStay, insert_checked-Holds}
use minhq.Hc.QpackWriter.{
  Slot, WriterState, Stream, record_match, can_evict, announced, write_duplicate, insertion_name,
  write_insert,
}
use minhq.Base.{Error}

pub List-cases {ℓ} :
    {A : Type ℓ} (xs : List A) → (xs ≡ []) ⊎ ((x : A) × (rest : List A) × (xs ≡ x ∷ rest))
List-cases [] = inl refl
List-cases (x ∷ rest) = inr (x, rest, refl)

module _ (Q : WriterState → Slot → Type 0)
    (closed : (full name : Option Entry) (state : WriterState) (slot : Slot)
      → Q state slot
      → Q (record_match full name state slot).0 (record_match full name state slot).1) where
  -- The encoder's counts stand, and the state and the slot keep what every match keeps, errors included.
  abbrev pub Holds : QpackEncoder → Option ((Stream × WriterState × Slot) × Option Error) → Type 0
  Holds e = IfAny (λ x. CountsStay e x.0.0.encoder × Q x.0.1 x.0.2)

  announced-Holds :
      (m : Writes) (slot : Slot) (bw : BitWriter) (e : QpackEncoder)
      (o : Option ((QpackEncoder × WriterState) × Bool))
      → IfAny (λ x. CountsStay e x.0.0 × Q x.0.1 slot) o
      → Holds e (announced m slot bw o)
  unfolding announced
  announced-Holds m slot bw e none h = tt
  announced-Holds m slot bw e (some ((e', state), false)) h = h
  announced-Holds m slot bw e (some ((e', state), true)) (c, q) = elim (Option-cases (m bw).1) [
    | inr (x, failed) ↦ rw (failed, announced) (c, q)
    | inl sent ↦ elim (List-cases e'.table.common.dynamic) [
      | inl empty ↦ rw (sent, announced, empty) tt
      | inr (newest, older, there) ↦
          rw (sent, announced, there) (c, closed (some (Entry.dynamic newest)) none state slot q)
    ]
  ]

  pub write_duplicate-Holds :
      (d : DynamicEntry) (stream : Stream) (state : WriterState) (slot : Slot)
      → Q state slot
      → Holds stream.encoder (write_duplicate d (stream, state, slot))
  unfolding write_duplicate can_evict
  write_duplicate-Holds d stream state slot q =
      announced-Holds (write_bits 0 3 >> write_int (stream.encoder.table.common.base - d.base) 5)
        slot stream.writer stream.encoder _
        (insert_checked-Holds can_evict (λ s. Q s slot) (λ s x p. p) state d.name d.value
          stream.encoder q)

  pub write_insert-Holds :
      (huffman : HuffmanCodingChoice) (name_match : Option Entry) (stream : Stream)
      (state : WriterState) (slot : Slot)
      → Q state slot
      → Holds stream.encoder (write_insert huffman name_match (stream, state, slot))
  unfolding write_insert can_evict
  write_insert-Holds huffman name_match stream state slot q =
      announced-Holds
        (insertion_name huffman stream.encoder.table.common.base slot.header.name name_match
          >> write_string_raw slot.header.value 7 huffman)
        slot stream.writer stream.encoder _
        (insert_checked-Holds can_evict (λ s. Q s slot) (λ s x p. p) state slot.header.name
          slot.header.value stream.encoder q)
