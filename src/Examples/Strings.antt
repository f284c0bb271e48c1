-- ===== src/Examples/Strings.antt =====
-- Concrete inputs to the theorems on strings, padding and the indices of HPACK.
use minhq.Base.{ℕ, List, false, if◌then◌else◌, true, ◌≡◌, refl, [], ◌∷◌, some, arith}
use minhq.Base.Names.{codes, name_eq}
use minhq.Io.BitWriter.{BitWriter, pad}
use minhq.Io.BitWriter.Wrote.{IsHealthy}
use minhq.Io.BitWriter.Padding.{Padded, pad-Padded}
use minhq.Hc.Strings.{huffman_coding_always, write_string_raw, read_string}
use minhq.Hc.Strings.Plain.{string_bits}
use minhq.Hc.Strings.RoundTrip.{read_string-Travels}
use minhq.Io.Travels.{Travels}
use minhq.Hc.Headers.{HeaderField}
use minhq.Hc.IndexPreferences.{should_index, set_index_preference}
use minhq.Hc.IndexPreferences.Preferring.{should_index-set_index_preference}
use minhq.Hc.Table.{DynamicEntry, Entry, TableCommon}
use minhq.Hc.HpackTable.{hpack_get, hpack_index}
use minhq.Hc.HpackTable.Indices.{hpack_get-hpack_index}

abbrev odd_writer : BitWriter
odd_writer = record {
  sink = record { bytes = 7 ∷ []; answers = []; byte_writer = true };
  saved = 5;
  saved_bits = 3;
  bytes_written = 1;
}

odd_writer-IsHealthy : IsHealthy odd_writer
odd_writer-IsHealthy = record { small = omega arith; accepting = refl; octets = (omega arith, tt) }

pad-Padded_example : Padded odd_writer (pad 0xff odd_writer)
pad-Padded_example = pad-Padded odd_writer odd_writer-IsHealthy

read_string-Travels_example :
    (hbit : ℕ) × (p : List ℕ) × Travels
      (string_bits 7 hbit p)
      (write_string_raw (codes "no") 7 huffman_coding_always)
      (read_string 7)
      (codes "no")
read_string-Travels_example =
    read_string-Travels huffman_coding_always (codes "no") 7 (omega arith, (omega arith, tt))
      (omega arith) (omega arith) (omega arith) (λ e. cc)

abbrev old : DynamicEntry
old = record { name = codes "a"; value = codes "b"; base = 3; usage_count = 0 }

abbrev newest : DynamicEntry
newest = record { name = codes "c"; value = []; base = 4; usage_count = 0 }

abbrev hpack_entries : TableCommon
hpack_entries = record { dynamic = newest ∷ old ∷ []; capacity = 100; used = 67; base = 4 }

hpack_get-hpack_index_example :
    hpack_get (hpack_index (Entry.dynamic old) hpack_entries) hpack_entries
    ≡ some (Entry.dynamic old)
hpack_get-hpack_index_example =
    hpack_get-hpack_index hpack_entries (Entry.dynamic old)
      (refl, omega arith, (refl, omega arith, tt)) (1, refl)

abbrev cookie : HeaderField
cookie = record { name = codes "cookie"; value = codes "a=b"; sensitive = false }

should_index-set_index_preference_example :
    should_index 4096
      (set_index_preference (codes "cookie") false ((codes "date", true) ∷ []))
      cookie
    ≡ (if name_eq (codes "cookie") (codes "cookie")
        then false
        else should_index 4096 ((codes "date", true) ∷ []) cookie)
should_index-set_index_preference_example =
    should_index-set_index_preference 4096 (codes "cookie") false ((codes "date", true) ∷ []) cookie
      (omega arith)
