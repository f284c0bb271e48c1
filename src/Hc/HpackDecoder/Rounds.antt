-- ===== src/Hc/HpackDecoder/Rounds.antt =====
-- One round of the loop of `ReadHeaderBlock` in front of each representation.
use minhq.Base.{ℕ, ◌^◌, ◌<◌, ◌≡◌, refl, sym, subst, some, false, ◌∙◌, List, ◌++◌, arith}
use minhq.Base.Names.{Name}
use minhq.Base.Bits.{bits_of}
use minhq.Io.BitReader.{BitReader, read_bit}
use minhq.Io.BitReader.View.{view, IsValid}
use minhq.Io.BitReader.Gives.{Gives, read_bit-Gives}
use minhq.Io.Travels.{Takes}
use minhq.Hc.Integers.{read_int}
use minhq.Hc.Integers.Bits.{int_bits}
use minhq.Hc.Integers.RoundTrip.{read_int-Gives}
use minhq.Hc.Headers.{HeaderField}
use minhq.Hc.Table.{TableCommon, Entry, set_capacity}
use minhq.Hc.HpackTable.{hpack_get, hpack_insert}
use minhq.Hc.HpackDecoder.{
  read_indexed, read_name_value, read_literal, Decodes, reading, insert_field, adopt_capacity,
  read_incremental, read_capacity, Round, appending, instructing, branching, behind_zeros,
  behind_zero, read_round,
}
use minhq.Hc.HpackDecoder.ReadBack.{
  Receives, decoding-Receives, indexed_field, literal_field, read_indexed-Takes, read_literal-Takes,
}
use mathlib.Core.List.{append_assoc}

appending-Receives :
    (bits : List ℕ) (t t' : TableCommon) (h : HeaderField) (d : Decodes HeaderField)
    → Receives bits t t' h d
    → Receives bits t t' (Round.appended h) (appending d)
appending-Receives bits t t' h d s r rest u e =
    let (table, g) = s r rest u e in
    rw (g.value, appending)
      (table, record { valid = g.valid; stops = g.stops; value = refl; left = g.left })

instructing-Receives :
    (bits : List ℕ) (t t' : TableCommon) (d : Decodes (Unit {0}))
    → Receives bits t t' tt d
    → Receives bits t t' Round.instructed (instructing d)
instructing-Receives bits t t' d s r rest u e =
    let (table, g) = s r rest u e in
    rw (g.value, instructing)
      (table, record { valid = g.valid; stops = g.stops; value = refl; left = g.left })

-- Behind a bit, what was in front of a reader whose source ends the same way.
behind {ℓ} :
    {A : Type ℓ} {rest : List ℕ} {a : A} {t t' : TableCommon} (v : ℕ) (xs : List ℕ) (d : Decodes A)
    (r : BitReader)
    → Receives xs t t' a d
    → Gives r.source.stop (xs ++ rest) v (read_bit r)
    → ((d t (read_bit r).0).0 ≡ t')
      × Gives r.source.stop rest a ((d t (read_bit r).0).1, (d t (read_bit r).0).2)
behind {rest} v xs d r s g =
    let (table, last) = s (read_bit r).0 rest g.valid g.left in
    (
      table,
      record {
        valid = last.valid;
        stops = last.stops ∙ g.stops;
        value = last.value;
        left = last.left;
      },
    )

bit-first :
    (v : ℕ) (xs rest : List ℕ) (r : BitReader)
    → v < 2
    → IsValid r
    → view r ≡ (bits_of 1 v ++ xs) ++ rest
    → Gives r.source.stop (xs ++ rest) v (read_bit r)
bit-first v xs rest r h u e =
    read_bit-Gives v r (xs ++ rest) u h (e ∙ append_assoc (bits_of 1 v) xs rest)

branching-one {ℓ} :
    {A : Type ℓ} (xs : List ℕ) (t t' : TableCommon) (a : A) (on_one on_zero : Decodes A)
    → Receives xs t t' a on_one
    → Receives (bits_of 1 1 ++ xs) t t' a (branching on_one on_zero)
branching-one xs t t' a on_one on_zero s r rest u e =
    let g = bit-first 1 xs rest r (omega arith) u e in
    rw (g.value, branching) (behind 1 xs on_one r s g)

branching-zero {ℓ} :
    {A : Type ℓ} (xs : List ℕ) (t t' : TableCommon) (a : A) (on_one on_zero : Decodes A)
    → Receives xs t t' a on_zero
    → Receives (bits_of 1 0 ++ xs) t t' a (branching on_one on_zero)
branching-zero xs t t' a on_one on_zero s r rest u e =
    let g = bit-first 0 xs rest r (omega arith) u e in
    rw (g.value, branching) (behind 0 xs on_zero r s g)

abbrev on_literal : Decodes Round
on_literal = appending (reading read_literal)

four_bits : (ni : ℕ) → ni < 2 → bits_of 4 ni ≡ bits_of 3 0 ++ bits_of 1 ni
unfolding bits_of
four_bits ni h = ground arith

abbrev on_indexed : Decodes Round
on_indexed = appending (reading read_indexed)

-- The first bit, of which an end of the input ends the loop.
round-one :
    (xs : List ℕ) (t t' : TableCommon) (a : Round)
    → Receives xs t t' a on_indexed
    → Receives (bits_of 1 1 ++ xs) t t' a read_round
unfolding read_round
round-one xs t t' a s r rest u e =
    let g = bit-first 1 xs rest r (omega arith) u e in
    rw (g.value, read_round) (behind 1 xs on_indexed r s g)

round-zero :
    (xs : List ℕ) (t t' : TableCommon) (a : Round)
    → Receives xs t t' a behind_zero
    → Receives (bits_of 1 0 ++ xs) t t' a read_round
unfolding read_round
round-zero xs t t' a s r rest u e =
    let g = bit-first 0 xs rest r (omega arith) u e in
    rw (g.value, read_round) (behind 0 xs behind_zero r s g)

pub read_round-indexed :
    (t : TableCommon) (i : ℕ) (e : Entry)
    → i < 2 ^ 63
    → hpack_get i t ≡ some e
    → Receives (bits_of 1 1 ++ int_bits 7 i) t t (Round.appended (indexed_field e)) read_round
read_round-indexed t i e small at =
    round-one (int_bits 7 i) t t (Round.appended (indexed_field e)) (
      appending-Receives (int_bits 7 i) t t (indexed_field e) (reading read_indexed) (
        decoding-Receives (int_bits 7 i) t read_indexed (λ h t. (t, h)) (indexed_field e)
          (read_indexed-Takes t i e small at)))

pub read_round-incremental :
    (t : TableCommon) (bits : List ℕ) (name value : Name)
    → Takes bits (read_name_value t 6) (name, value)
    → Receives
        (bits_of 2 1 ++ bits)
        t
        (hpack_insert name value t).0
        (Round.appended (record { name = name; value = value; sensitive = false }))
        read_round
unfolding behind_zero read_incremental bits_of
read_round-incremental t bits name value named = round-zero (bits_of 1 1 ++ bits) t _ _ (
    branching-one bits t _ _ (appending read_incremental) behind_zeros (
      appending-Receives bits t _ _ read_incremental
        (decoding-Receives bits t (λ t. read_name_value t 6) insert_field (name, value) named)))

pub read_round-capacity :
    (t : TableCommon) (c : ℕ)
    → c < 2 ^ 64
    → Receives (bits_of 3 1 ++ int_bits 5 c) t (set_capacity c t) Round.instructed read_round
unfolding behind_zero behind_zeros read_capacity bits_of
read_round-capacity t c small = round-zero (bits_of 2 1 ++ int_bits 5 c) t _ _ (
    branching-zero (bits_of 1 1 ++ int_bits 5 c) t _ _ (appending read_incremental) behind_zeros (
      branching-one (int_bits 5 c) t _ _ (instructing read_capacity) on_literal (
        instructing-Receives (int_bits 5 c) t _ read_capacity (
          decoding-Receives (int_bits 5 c) t (λ t. read_int 5) adopt_capacity c
            (λ r rest u e. read_int-Gives c 5 r rest small (omega arith) (omega arith) u e)))))

pub read_round-literal :
    (t : TableCommon) (ni : ℕ) (bits : List ℕ) (name value : Name)
    → ni < 2
    → Takes bits (read_name_value t 4) (name, value)
    → Receives
        (bits_of 4 ni ++ bits)
        t
        t
        (Round.appended (literal_field (name, value) ni))
        read_round
unfolding behind_zero behind_zeros
read_round-literal t ni bits name value h named =
    subst
      (λ x. Receives (x ++ bits) t t (Round.appended (literal_field (name, value) ni)) read_round)
      (sym (four_bits ni h))
      (unfold bits_of in
        round-zero (bits_of 2 0 ++ (bits_of 1 ni ++ bits)) t t
          (Round.appended (literal_field (name, value) ni))
          (branching-zero (bits_of 1 0 ++ (bits_of 1 ni ++ bits)) t t
            (Round.appended (literal_field (name, value) ni)) (appending read_incremental)
            behind_zeros
            (branching-zero (bits_of 1 ni ++ bits) t t
              (Round.appended (literal_field (name, value) ni)) (instructing read_capacity)
              on_literal
              (appending-Receives (bits_of 1 ni ++ bits) t t (literal_field (name, value) ni)
                (reading read_literal)
                (decoding-Receives (bits_of 1 ni ++ bits) t read_literal (λ h t. (t, h))
                  (literal_field (name, value) ni)
                  (read_literal-Takes t ni bits name value h named))))))
