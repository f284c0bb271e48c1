-- ===== src/Hc/HpackEncoder/Fields.antt =====
-- One header field, from the encoder to the decoder.
use minhq.Base.{
  ℕ, ◌+◌, ◌≤◌, ◌<◌, ◌≡◌, refl, ap, subst, ◌∙◌, List, ◌++◌, false, Option, none, some, length,
  length-append, arith, if◌then◌else◌, inl, inr, Bool-cases,
}
use minhq.Base.Bits.{bits_of, length-bits_of}
use minhq.Io.BitWriter.{BitWriter, Writes, ◌>>◌, write_bits, write_bit}
use minhq.Io.BitWriter.View.{view}
use mathlib.Core.List.{append_assoc}
use minhq.Io.BitWriter.Wrote.{IsHealthy, Wrote, write_bits-Wrote, write_bit-Wrote}
use minhq.Io.Travels.{Puts, >>-Puts}
use minhq.Hc.Integers.{write_int}
use minhq.Hc.Integers.Bits.{int_bits, write_int-Wrote, length-int_bits}
use minhq.Hc.Headers.{HeaderField}
use minhq.Hc.StaticTable.{hpack_static_table}
use minhq.Hc.IndexPreferences.{should_index}
use minhq.Hc.Table.{Entry}
use minhq.Hc.Table.Finding.{FullMatches}
use minhq.Hc.HpackTable.{hpack_insert, hpack_index, hpack_lookup}
use minhq.Hc.HpackTable.Indices.{hpack_get-hpack_index}
use minhq.Hc.HpackTable.Inserts.{hpack_insert-IsValid, hpack_insert-capacity, hpack_lookup-Matches}
use minhq.Hc.HpackDecoder.{Round, read_round}
use minhq.Hc.HpackDecoder.ReadBack.{Receives, indexed_field, literal_field}
use minhq.Hc.HpackDecoder.Rounds.{read_round-indexed, read_round-incremental, read_round-literal}
use minhq.Hc.HpackEncoder.{
  HpackEncoder, Encodes, encoding, ◌>=>◌, unchanged, write_indexed, write_name_value,
  write_incremental, write_literal, write_found, write_field,
}
use minhq.Hc.HpackEncoder.Crossing.{
  IsCarried, Octets, IsSound, Named, name_value-Named, index-small,
}

-- The step returns no error, appends the bits and leaves the encoder as `e'`.
abbrev pub Sends : List ℕ → HpackEncoder → HpackEncoder → Encodes → Type 0
Sends bits e e' m =
    (bw : BitWriter) → IsHealthy bw → ((m e bw).0 ≡ e') × Wrote bits bw ((m e bw).1, (m e bw).2)

pub encoding-Sends :
    (bits : List ℕ) (e : HpackEncoder) (m : HpackEncoder → Writes) (f : HpackEncoder → HpackEncoder)
    → Puts bits (m e)
    → Sends bits e (f e) (encoding m f)
encoding-Sends bits e m f puts bw u =
    let w = puts bw u in
    rw (w.no_error, encoding)
      (refl, record { healthy = w.healthy; no_error = refl; appended = w.appended })

pub >=>-Sends :
    (xs ys : List ℕ) (e e' e'' : HpackEncoder) (m k : Encodes)
    → Sends xs e e' m
    → Sends ys e' e'' k
    → Sends (xs ++ ys) e e'' (m >=> k)
>=>-Sends xs ys e e' e'' m k first second bw u =
    let (same, w) = first bw u in
    let (same', w') = second (m e bw).1 w.healthy in
    rw (w.no_error, ◌>=>◌, same)
      (
        same',
        record {
          healthy = w'.healthy;
          no_error = w'.no_error;
          appended = w'.appended ∙ ap (λ z. z ++ ys) w.appended ∙ append_assoc (view bw) xs ys;
        },
      )

-- The step writes whole octets, at least one, of which the decoder makes the round, and both tables
-- are the same behind it.
pub record Crosses (e : HpackEncoder) (m : Encodes) (round : Round) : Type 0 where
  pub after : HpackEncoder
  pub bits : List ℕ
  pub whole : Octets 0 bits
  pub some_bits : 1 ≤ length bits
  pub sends : Sends bits e after m
  pub receives : Receives bits e.table after.table round read_round
  pub sound : IsSound after.table
  pub capacity : after.table.capacity ≡ e.table.capacity
  pub others : after ≡ record e { table = after.table }

Crosses-same :
    (e : HpackEncoder) (m m' : Encodes) (round : Round)
    → ((bw : BitWriter) → m' e bw ≡ m e bw)
    → Crosses e m round
    → Crosses e m' round
Crosses-same e m m' round same c = record {
  after = c.after;
  bits = c.bits;
  whole = c.whole;
  some_bits = c.some_bits;
  sends = λ bw u. rw (same bw) (c.sends bw u);
  receives = c.receives;
  sound = c.sound;
  capacity = c.capacity;
  others = c.others;
}

module _ (e : HpackEncoder) (h : HeaderField) (sound : IsSound e.table) where
  indexed-Crosses :
      (m : Entry)
      → h.sensitive ≡ false
      → FullMatches h.name h.value hpack_static_table e.table.dynamic (some m)
      → Crosses e (encoding (write_indexed m) unchanged) (Round.appended h)
  unfolding write_indexed
  indexed-Crosses m plain (at, named, valued) =
      let index = hpack_index m e.table in
      let small = index-small e.table m sound at in
      let (k, len) = length-int_bits 7 index in
      let same : indexed_field m ≡ h = rw (named, valued, ← plain) refl in
      record {
        after = e;
        bits = bits_of 1 1 ++ int_bits 7 index;
        whole = (
          1 + k,
          omega (arith, len, length-append (bits_of 1 1) (int_bits 7 index), length-bits_of 1 1),
        );
        some_bits =
            omega (arith, length-append (bits_of 1 1) (int_bits 7 index), length-bits_of 1 1);
        sends = encoding-Sends (bits_of 1 1 ++ int_bits 7 index) e (write_indexed m) unchanged (
            >>-Puts (bits_of 1 1) (int_bits 7 index) (write_bit 1) (write_int index 7)
              (λ bw u. write_bit-Wrote 1 bw u (omega arith))
              (λ bw u. write_int-Wrote index 7 bw (omega arith) (omega arith) (omega arith) u));
        receives =
            subst
              (λ x.
                Receives (bits_of 1 1 ++ int_bits 7 index) e.table e.table (Round.appended x)
                  read_round)
              same
              (read_round-indexed e.table index m small
                (hpack_get-hpack_index e.table m sound.valid.numbered at));
        sound = sound;
        capacity = refl;
        others = refl;
      }

  literal-Crosses :
      (entry : Option Entry) (ni : ℕ)
      → ni < 2
      → (if h.sensitive then 1 else 0) ≡ ni
      → literal_field (h.name, h.value) ni ≡ h
      → Named 4 h entry e
      → Crosses e (encoding (write_literal h entry) unchanged) (Round.appended h)
  unfolding write_literal
  literal-Crosses entry ni one code same (nb, (k, len), named) = record {
    after = e;
    bits = bits_of 4 ni ++ nb;
    whole = (k, omega (arith, len, length-append (bits_of 4 ni) nb, length-bits_of 4 ni));
    some_bits = omega (arith, length-append (bits_of 4 ni) nb, length-bits_of 4 ni);
    sends = encoding-Sends (bits_of 4 ni ++ nb) e (write_literal h entry) unchanged (
        rw code (
          >>-Puts (bits_of 4 ni) nb (write_bits ni 4) (write_name_value h entry 4 e)
            (λ bw u. write_bits-Wrote ni 4 bw u (omega arith) (omega arith)) named.wrote));
    receives =
        subst (λ x. Receives (bits_of 4 ni ++ nb) e.table e.table (Round.appended x) read_round)
          same (read_round-literal e.table ni nb h.name h.value one named.gives);
    sound = sound;
    capacity = refl;
    others = refl;
  }

  abbrev inserted : HpackEncoder
  inserted = record e { table = (hpack_insert h.name h.value e.table).0 }

  incremental-Crosses :
      (entry : Option Entry)
      → h.sensitive ≡ false
      → Named 6 h entry e
      → Crosses e (write_incremental h entry) (Round.appended h)
  unfolding write_incremental
  incremental-Crosses entry plain (nb, (k, len), named) = record {
    after = inserted;
    bits = bits_of 2 1 ++ nb;
    whole = (k, omega (arith, len, length-append (bits_of 2 1) nb, length-bits_of 2 1));
    some_bits = omega (arith, length-append (bits_of 2 1) nb, length-bits_of 2 1);
    sends =
        encoding-Sends (bits_of 2 1 ++ nb) e (λ e. write_bits 1 2 >> write_name_value h entry 6 e)
          (λ e. record e { table = (hpack_insert h.name h.value e.table).0 })
          (>>-Puts (bits_of 2 1) nb (write_bits 1 2) (write_name_value h entry 6 e)
            (λ bw u. write_bits-Wrote 1 2 bw u (omega arith) (omega arith)) named.wrote);
    receives =
        subst
          (λ x. Receives (bits_of 2 1 ++ nb) e.table inserted.table (Round.appended x) read_round)
          (rw (← plain) refl) (read_round-incremental e.table nb h.name h.value named.gives);
    sound = record {
      valid = hpack_insert-IsValid h.name h.value e.table sound.valid;
      small = rw (hpack_insert-capacity h.name h.value e.table sound.valid) sound.small;
    };
    capacity = hpack_insert-capacity h.name h.value e.table sound.valid;
    others = refl;
  }

  found-Crosses :
      (m nm : Option Entry)
      → h.sensitive ≡ false
      → FullMatches h.name h.value hpack_static_table e.table.dynamic m
      → ((prefix : ℕ) → 1 ≤ prefix → prefix ≤ 8 → Named prefix h nm e)
      → Crosses e (write_found h (m, nm)) (Round.appended h)
  unfolding write_found
  found-Crosses (some m) nm plain full named = indexed-Crosses m plain full
  found-Crosses none nm plain full named =
      elim (Bool-cases (should_index e.table.capacity e.index_prefs h)) [
        | inl indexing ↦
            Crosses-same e (write_incremental h nm) _ _ (λ bw. rw indexing refl)
              (incremental-Crosses nm plain (named 6 (omega arith) (omega arith)))
        | inr literally ↦
            Crosses-same e (encoding (write_literal h nm) unchanged) _ _ (λ bw. rw literally refl)
              (literal-Crosses nm 0 (omega arith) (rw plain refl) (rw (← plain) refl)
                (named 4 (omega arith) (omega arith)))
      ]

-- Every header field whose strings are carried over crosses, in whichever representation.
pub write_field-Crosses :
    (e : HpackEncoder) (h : HeaderField)
    → IsSound e.table
    → IsCarried e.huffman_preference h.name
    → IsCarried e.huffman_preference h.value
    → Crosses e (write_field h) (Round.appended h)
unfolding write_field
write_field-Crosses e h sound name value = elim (Bool-cases h.sensitive) [
  | inl secret ↦
      Crosses-same e (encoding (write_literal h none) unchanged) _ _ (λ bw. rw secret refl)
        (literal-Crosses e h sound none 1 (omega arith) (rw secret refl) (rw (← secret) refl)
          (name_value-Named 4 h none e (omega arith) (omega arith) sound name value tt))
  | inr plain ↦
      let (full, partial) = hpack_lookup-Matches h.name h.value e.table in
      Crosses-same e (write_found h (hpack_lookup h.name h.value e.table)) _ _ (λ bw. rw plain refl)
        (found-Crosses e h sound _ _ plain full
          (λ prefix low high. name_value-Named prefix h _ e low high sound name value partial))
]
