-- ===== src/Examples/Blocks.antt =====
-- Concrete inputs to the theorems on HPACK header blocks.
use minhq.Base.Words.{IsByte}
use minhq.Base.Bits.{bits_of}
use minhq.Hc.Table.Evicting.{total}
use minhq.Hc.Headers.{validate_loop, starts_with_colon}
use minhq.Base.{length, ◌≤◌, ℕ, ◌≡◌, refl, List, [], ◌∷◌, none, true, false, Error, arith, All}
use minhq.Base.Names.{codes}
use minhq.Io.BitWriter.{Sink}
use minhq.Io.BitReader.{BitReader}
use minhq.Hc.Strings.{huffman_coding_auto}
use minhq.Hc.Headers.{HeaderField, validate_pseudo_headers}
use minhq.Hc.Table.{TableCommon}
use minhq.Hc.HpackDecoder.{read_fields}
use minhq.Hc.HpackDecoder.Progress.{Finishes, read_fields_ends}
use minhq.Hc.HpackEncoder.{HpackEncoder, write_header_block}
use minhq.Hc.HpackEncoder.Crossing.{IsCarried}
use minhq.Hc.HpackEncoder.FieldLists.{AreCarried}
use minhq.Hc.HpackEncoder.Capacities.{IsReady}
use minhq.Hc.HpackEncoder.Blocks.{ReadsBack, write_header_block-ReadsBack}
use minhq.Hc.HpackEncoder.Refusing.{write_header_block-error}

abbrev empty_table : TableCommon
empty_table = record { dynamic = []; capacity = 0; used = 0; base = 0 }

-- The capacity has been set, and no block written yet.
abbrev new_encoder : HpackEncoder
new_encoder = record {
  table = empty_table;
  min_capacity = 0;
  next_capacity = 100;
  huffman_preference = huffman_coding_auto;
  index_prefs = [];
}

new_encoder-IsReady : IsReady new_encoder
new_encoder-IsReady = record {
  sound = record {
    valid = record { accounted = unfold total in refl; fits = omega arith; numbered = tt };
    small = omega arith;
  };
  ordered = omega arith;
  next_small = omega arith;
}

-- Over the static table, into the dynamic table, out of it again, and a secret one.
abbrev some_fields : List HeaderField
some_fields =
    record { name = codes ":a"; value = codes "b"; sensitive = false }
    ∷ record { name = codes "c"; value = codes ""; sensitive = false }
    ∷ record { name = codes "c"; value = codes ""; sensitive = false }
    ∷ record { name = codes "d"; value = codes "e"; sensitive = true }
    ∷ []

some_fields-in_order : validate_pseudo_headers some_fields ≡ none
unfolding validate_pseudo_headers validate_loop starts_with_colon
some_fields-in_order = refl

abbrev out_of_order : List HeaderField
out_of_order =
    record { name = codes "c"; value = codes ""; sensitive = false }
    ∷ record { name = codes ":a"; value = codes "b"; sensitive = false }
    ∷ []

short_string : (s : List ℕ) → All IsByte s → length s ≤ 9 → IsCarried huffman_coding_auto s
short_string s h short = record { octets = h; short = omega arith; readable = tt }

a-carried :
    AreCarried huffman_coding_auto
      (record { name = codes ":a"; value = codes "b"; sensitive = false })
a-carried = (
  short_string (codes ":a") (omega arith, (omega arith, tt)) (omega arith),
  short_string (codes "b") (omega arith, tt) (omega arith),
)

c-carried :
    AreCarried huffman_coding_auto
      (record { name = codes "c"; value = codes ""; sensitive = false })
c-carried =
    (short_string (codes "c") (omega arith, tt) (omega arith), short_string [] tt (omega arith))

d-carried :
    AreCarried huffman_coding_auto
      (record { name = codes "d"; value = codes "e"; sensitive = true })
d-carried = (
  short_string (codes "d") (omega arith, tt) (omega arith),
  short_string (codes "e") (omega arith, tt) (omega arith),
)

abbrev empty_sink : Sink
empty_sink = record { bytes = []; answers = []; byte_writer = true }

write_header_block-ReadsBack_example :
    ReadsBack some_fields new_encoder (write_header_block some_fields new_encoder empty_sink)
write_header_block-ReadsBack_example =
    write_header_block-ReadsBack some_fields new_encoder empty_sink new_encoder-IsReady
      (a-carried, (c-carried, (c-carried, (d-carried, tt)))) some_fields-in_order refl refl

write_header_block-error_example :
    (write_header_block out_of_order new_encoder empty_sink).2
    ≡ validate_pseudo_headers out_of_order
write_header_block-error_example =
    write_header_block-error out_of_order new_encoder empty_sink new_encoder-IsReady
      (c-carried, (a-carried, tt)) refl refl

-- An indexed field, and a capacity whose octets are cut off.
abbrev some_input : BitReader
some_input = record {
  source = record { bytes = 0x82 ∷ 0x3f ∷ []; stop = Error.eof };
  saved = 0;
  saved_bits = 0;
}

read_fields_ends_example :
    Finishes 17 empty_table some_input
    × (read_fields 17 [] empty_table some_input ≡ read_fields 40 [] empty_table some_input)
unfolding bits_of
read_fields_ends_example =
    read_fields_ends 17 40 [] empty_table some_input
      (record { room = omega arith; octets = (omega arith, (omega arith, tt)) }) (omega arith)
      (omega arith)
