-- ===== src/Hc/HpackDecoder/Blocks.antt =====
-- The loop of `ReadHeaderBlock` over a whole block.
use minhq.Base.{
  ℕ, zero, suc, ◌+◌, ◌*◌, ◌≤◌, ◌<◌, ◌≡◌, refl, sym, ap, ◌∙◌, List, [], ◌∷◌, ◌++◌, none, Error, ok,
  length, All, arith, inl, inr, length-append,
}
use minhq.Base.Words.{IsByte}
use minhq.Base.Bits.{bits_of, length-bits_of}
use minhq.Io.BitReader.{BitReader, Source, read_bit, new_bit_reader}
use minhq.Io.BitReader.View.{view, IsValid}
use minhq.Io.BitReader.Reads.{read_bit-Took}
use minhq.Io.BitWriter.View.{byte_bits}
use minhq.Io.BitWriter.Padding.{length-byte_bits}
use minhq.Hc.Headers.{HeaderField, validate_pseudo_headers}
use minhq.Hc.Table.{TableCommon}
use minhq.Hc.HpackDecoder.{Round, at_end, read_round, read_fields, read_header_block, checked}
use minhq.Hc.HpackDecoder.ReadBack.{Receives}
use mathlib.Core.List.{append_assoc, append-nil}

-- At the end of the input a round ends the loop.
read_round-ended :
    (t : TableCommon) (r : BitReader)
    → IsValid r
    → view r ≡ []
    → r.source.stop ≡ Error.eof
    → ((read_round t r).0 ≡ t) × ((read_round t r).2 ≡ ok Round.ended)
unfolding read_round at_end
read_round-ended t r u e stops = elim (read_bit-Took r u).2 [
  | inl (w, eq, small, parts) ↦ absurd (
      omega (
        arith,
        ap length parts,
        ap length e,
        length-append (bits_of 1 w) (view (read_bit r).0),
        length-bits_of 1 w,
      ))
  | inr (eq, same, short) ↦ rw (eq, read_round, stops) (refl, refl)
]

-- In front of exactly these bits, more rounds than `n` read the fields behind those in hand, and the
-- table becomes `t'`.
abbrev pub ReadsBlock : ℕ → List ℕ → TableCommon → TableCommon → List HeaderField → Type 0
ReadsBlock n bits t t' headers =
    (rounds : ℕ) (acc : List HeaderField) (r : BitReader)
    → n < rounds
    → IsValid r
    → view r ≡ bits
    → r.source.stop ≡ Error.eof
    → ((read_fields rounds acc t r).0 ≡ t') × ((read_fields rounds acc t r).2 ≡ ok (acc ++ headers))

pub reads-nothing : (t : TableCommon) → ReadsBlock 0 [] t t []
unfolding read_fields
reads-nothing t zero acc r enough u e stops = absurd (omega arith)
reads-nothing t (suc rounds) acc r enough u e stops =
    let (table, ended) = read_round-ended t r u e stops in
    rw (ended, read_fields) (table, ap ok (sym (append-nil acc)))

pub reads-field :
    (n : ℕ) (xs ys : List ℕ) (t t' t'' : TableCommon) (h : HeaderField) (hs : List HeaderField)
    → Receives xs t t' (Round.appended h) read_round
    → ReadsBlock n ys t' t'' hs
    → ReadsBlock (suc n) (xs ++ ys) t t'' (h ∷ hs)
unfolding read_fields
reads-field n xs ys t t' t'' h hs first more zero acc r enough u e stops = absurd (omega arith)
reads-field n xs ys t t' t'' h hs first more (suc rounds) acc r enough u e stops =
    let (table, g) = first r ys u e in
    let (last, fields) =
      more rounds (acc ++ h ∷ []) (read_round t r).1 (omega arith) g.valid g.left
        (g.stops ∙ stops) in
    rw (g.value, read_fields, table) (last, fields ∙ ap ok (append_assoc acc (h ∷ []) hs))

pub reads-instruction :
    (n : ℕ) (xs ys : List ℕ) (t t' t'' : TableCommon) (hs : List HeaderField)
    → Receives xs t t' Round.instructed read_round
    → ReadsBlock n ys t' t'' hs
    → ReadsBlock (suc n) (xs ++ ys) t t'' hs
unfolding read_fields
reads-instruction n xs ys t t' t'' hs first more zero acc r enough u e stops = absurd (omega arith)
reads-instruction n xs ys t t' t'' hs first more (suc rounds) acc r enough u e stops =
    let (table, g) = first r ys u e in
    let (last, fields) =
      more rounds acc (read_round t r).1 (omega arith) g.valid g.left (g.stops ∙ stops) in
    rw (g.value, read_fields, table) (last, fields)

-- All of it: the rounds are enough when there is no more than one for each bit.
pub read_header_block-reads :
    (n : ℕ) (bytes bits : List ℕ) (t t' : TableCommon) (hs : List HeaderField)
    → All IsByte bytes
    → byte_bits bytes ≡ bits
    → n ≤ length bits
    → validate_pseudo_headers hs ≡ none
    → ReadsBlock n bits t t' hs
    → ((read_header_block t (record { bytes = bytes; stop = Error.eof })).0 ≡ t')
      × ((read_header_block t (record { bytes = bytes; stop = Error.eof })).2 ≡ ok hs)
unfolding read_header_block checked new_bit_reader bits_of
read_header_block-reads n bytes bits t t' hs octets e enough in_order reads =
    let source : Source = record { bytes = bytes; stop = Error.eof } in
    let start : BitReader = new_bit_reader source in
    let (table, fields) =
      reads (8 * length bytes + 1) [] start
        (omega (arith, enough, ap length e, length-byte_bits bytes))
        (record { room = omega arith; octets = octets }) e refl in
    rw (fields, read_header_block, in_order) (table, refl)
