-- ===== src/Hc/QpackWriter/Blocks/Rounds.antt =====
-- The loop of `writeTableChanges`: what it keeps of the encoder, of the state and of the slots.
use minhq.Base.{
  ℕ, ◌+◌, ◌≤◌, ◌∙◌, inl, inr, List, [], ◌∷◌, ◌&&◌, Option, none, some, Error, leb, length, arith,
  Option-cases, Bool-cases,
}
use minhq.Hc.Strings.{HuffmanCodingChoice}
use minhq.Hc.IndexPreferences.{IndexPrefs, should_index}
use minhq.Hc.Table.{DynamicEntry, Entry}
use minhq.Hc.QpackTable.{lookup_referenceable, lookup_blocked, lookup_extra}
use minhq.Hc.QpackTable.Steady.{IfAny}
use minhq.Hc.QpackEncoder.{QpackEncoder}
use minhq.Hc.QpackEncoder.Steady.{CountsStay, CountsStay-refl, CountsStay-trans}
use minhq.Hc.QpackWriter.{Slot, WriterState, Stream, record_match}
use minhq.Hc.QpackWriter.Blocking.{Keeps, record_match-Keeps}
use minhq.Hc.QpackWriter.Slots.{SlotWithin, SlotWithin-mono, IsCovered, record_match-IsCovered}
use minhq.Hc.QpackWriter.Holding.{Holds, write_duplicate-Holds, write_insert-Holds}
use minhq.Hc.QpackWriter.Blocks.{capped_base, or_at_risk, change_new, change_slot, change_slots}

module _ (Q : WriterState → Slot → Type 0)
    (closed : (full name : Option Entry) (state : WriterState) (slot : Slot)
      → Q state slot
      → Q (record_match full name state slot).0 (record_match full name state slot).1) where
  change_new-Holds :
      (huffman : HuffmanCodingChoice) (prefs : IndexPrefs) (name : Option Entry)
      (extra : Option DynamicEntry) (stream : Stream) (state : WriterState) (slot : Slot)
      → Q state slot
      → Holds Q closed stream.encoder (change_new huffman prefs name extra (stream, state, slot))
  unfolding change_new
  change_new-Holds huffman prefs name extra stream state slot q =
      let h = slot.header in
      let capacity = stream.encoder.table.common.capacity in
      let q' = closed none name state slot q in
      elim (Bool-cases
        (should_index capacity prefs h && leb (32 + (length h.name + length h.value)) capacity)) [
          | inl indexed ↦
              rw (indexed, change_new)
                (write_insert-Holds Q closed huffman (or_at_risk name extra) stream
                  (record_match none name state slot).0 (record_match none name state slot).1 q')
          | inr literal ↦ rw (literal, change_new) (CountsStay-refl stream.encoder, q')
        ]

  change_slot-Holds :
      (huffman : HuffmanCodingChoice) (prefs : IndexPrefs) (stream : Stream) (state : WriterState)
      (slot : Slot)
      → Q state slot
      → Holds Q closed stream.encoder (change_slot huffman prefs (stream, state, slot))
  unfolding change_slot
  change_slot-Holds huffman prefs stream state slot q =
      let h = slot.header in
      let table = stream.encoder.table in
      let max_base = capped_base table.common.base state.max_base in
      let found = lookup_referenceable h.name h.value max_base table in
      let extra = lookup_extra h.name h.value table in
      elim (Bool-cases h.sensitive) [
        | inl sensitive ↦ simp (sensitive, change_slot) (CountsStay-refl stream.encoder, q)
        | inr plain ↦ elim (Option-cases found.0) [
          | inr (e, there) ↦
              rw (plain, change_slot, there)
                (CountsStay-refl stream.encoder, closed (some e) found.1 state slot q)
          | inl missing ↦ elim (Bool-cases (lookup_blocked h.name h.value max_base table)) [
            | inl blocked ↦
                rw (plain, change_slot, missing, blocked) (CountsStay-refl stream.encoder, q)
            | inr free ↦ elim (Option-cases extra.0) [
              | inl new ↦
                  rw (plain, change_slot, missing, free, new)
                    (change_new-Holds huffman prefs found.1 extra.1 stream state slot q)
              | inr (d, old) ↦ elim (Bool-cases (leb d.base stream.encoder.highest_acknowledged)) [
                | inl known ↦
                    rw (plain, change_slot, missing, free, old, known)
                      (write_duplicate-Holds Q closed d stream state slot q)
                | inr unknown ↦
                    rw (plain, change_slot, missing, free, old, unknown)
                      (CountsStay-refl stream.encoder, q)
              ]
            ]
          ]
        ]
      ]

abbrev pub AllWithin : ℕ → List Slot → Type 0
AllWithin l [] = Unit {0}
AllWithin l (slot ∷ slots) = SlotWithin l slot × AllWithin l slots

AllWithin-mono : (l l' : ℕ) (slots : List Slot) → l ≤ l' → AllWithin l slots → AllWithin l' slots
AllWithin-mono l l' [] h w = tt
AllWithin-mono l l' (slot ∷ slots) h (here, rest) =
    (SlotWithin-mono l l' slot h here, AllWithin-mono l l' slots h rest)

-- The bound of the block, and that it covers a slot, from a largest base on.
Good : WriterState → ℕ → WriterState → Slot → Type 0
Good s0 l state slot = Keeps s0 state × IsCovered l state slot

Good-closed :
    (s0 : WriterState) (l : ℕ) (full name : Option Entry) (state : WriterState) (slot : Slot)
    → Good s0 l state slot
    → Good s0 l (record_match full name state slot).0 (record_match full name state slot).1
unfolding Good
Good-closed s0 l full name state slot ((b, m, w), c) =
    let (b', m', w') = record_match-Keeps full name state slot b in
    ((b', m' ∙ m, w' ∙ w), record_match-IsCovered l full name state slot c)

unfoldable pub AllHold :
    WriterState
    → QpackEncoder
    → ℕ
    → Option ((Stream × WriterState) × List Slot × Option Error)
    → Type 0
AllHold s0 e l = IfAny (λ x.
    CountsStay e x.0.0.encoder
    × Keeps s0 x.0.1
    × (l ≤ x.0.1.largest_base)
    × AllWithin x.0.1.largest_base x.1)

pub change_slots-Holds :
    (s0 : WriterState) (huffman : HuffmanCodingChoice) (prefs : IndexPrefs) (e : QpackEncoder)
    (slots : List Slot) (stream : Stream) (state : WriterState)
    → CountsStay e stream.encoder
    → Keeps s0 state
    → AllWithin state.largest_base slots
    → AllHold s0 e state.largest_base (change_slots huffman prefs slots (stream, state))
unfolding change_slots AllHold Good
change_slots-Holds s0 huffman prefs e [] stream state c k w = (c, k, omega arith, tt)
change_slots-Holds s0 huffman prefs e (slot ∷ slots) stream state c k (here, after) =
    let l = state.largest_base in
    let first =
      change_slot-Holds (Good s0 l) (Good-closed s0 l) huffman prefs stream state slot
        (k, (omega arith, here)) in
    elim (Option-cases (change_slot huffman prefs (stream, state, slot))) [
      | inl panics ↦ rw (panics, change_slots) tt
      | inr (((stream', state', slot'), some x), out) ↦
          let (c', (k', (low, w'))) = rw out at first in
          rw (out, change_slots)
            (
              CountsStay-trans e stream.encoder stream'.encoder c c',
              k',
              low,
              (w', AllWithin-mono l state'.largest_base slots low after),
            )
      | inr (((stream', state', slot'), none), out) ↦
          let (c', (k', (low, w'))) = rw out at first in
          let rest =
            change_slots-Holds s0 huffman prefs e slots stream' state'
              (CountsStay-trans e stream.encoder stream'.encoder c c') k'
              (AllWithin-mono l state'.largest_base slots low after) in
          elim (Option-cases (change_slots huffman prefs slots (stream', state'))) [
            | inl panics ↦ rw (out, change_slots, panics) tt
            | inr ((s, more, x), done) ↦
                let (c'', k'', low', w'') = rw done at rest in
                rw (out, change_slots, done)
                  (
                    c'',
                    k'',
                    omega (arith, low, low'),
                    (SlotWithin-mono state'.largest_base s.1.largest_base slot' low' w', w''),
                  )
          ]
    ]
