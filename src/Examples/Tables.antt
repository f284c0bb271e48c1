-- ===== src/Examples/Tables.antt =====
-- Concrete inputs to the theorems on the tables, the header fields, the push IDs and the messages.
use minhq.Base.{
  suc, take, ◌<◌, ◌⊎◌, ℕ, ◌+◌, ◌≤◌, ◌≡◌, refl, List, [], ◌∷◌, ◌++◌, true, false, none, some, Error,
  ok, arith, length, map, ◌↔◌, leb,
}
use minhq.Base.Int.{pos}
use minhq.Base.Names.{Name, codes}
use minhq.Hc.StaticTable.{qpack_static_table}
use minhq.Hc.Table.{
  DynamicEntry, Entry, TableCommon, EvictionCheck, size, get_dynamic, index_from, insert,
  lookup_impl, slice,
}
use minhq.Hc.Table.Evicting.{total}
use minhq.Hc.Table.Inserting.{IsValid, Inserts, insert-Inserts, insert-IsValid}
use minhq.Hc.Table.Numbering.{Numbered, get_dynamic-index_from}
use minhq.Hc.Table.Lookups.{found, first, same_field, same_name, lookup_impl-first}
use minhq.Hc.QpackTable.{QpackEncoderTable, insert_entry, shrink}
use minhq.Hc.QpackTable.Referencing.{IsTracked, Kept, insert_entry-IsTracked, shrink-Tracks}
use minhq.Hc.LargestReference.{encode_largest_reference, decode_largest_base}
use minhq.Hc.LargestReference.RoundTrip.{decode_largest_base-encode}
use minhq.Hc.Headers.{HeaderField, validate_pseudo_headers}
use minhq.Hc.Headers.Ordering.{InOrder, validate_pseudo_headers_iff}
use minhq.Frame.{FrameType}
use minhq.ServerPush.{ServerConnection}
use minhq.ServerPush.Issuing.{Call, run, count_from, run-count_from}
use minhq.ServerPush.Race.{Point, Threads, Reach, duplicate_push_id}
use minhq.Message.{Frame, Handlers}

decode_largest_base-encode_example : decode_largest_base 4096 310 45 ≡ some 300
unfolding encode_largest_reference
decode_largest_base-encode_example =
    decode_largest_base-encode 4096 300 310 45 (omega arith) (omega arith) (omega arith)
      (omega arith) (omega arith) refl

abbrev entry : Name → Name → ℕ → DynamicEntry
entry name value base = record { name = name; value = value; base = base; usage_count = 0 }

-- Sizes 36, 34 and 33 of 110.
abbrev table : TableCommon
table = record {
  dynamic =
      entry (codes "ab") (codes "cd") 7
      ∷ entry (codes "a") (codes "b") 6
      ∷ entry (codes "e") [] 5
      ∷ [];
  capacity = 110;
  used = 103;
  base = 7;
}

-- The newest entry has to stay; the check counts its calls.
abbrev keep_newer : EvictionCheck ℕ
keep_newer n e = (n + 1, leb e.base 6)

table-Numbered : Numbered 7 table.dynamic
table-Numbered = (refl, omega arith, (refl, omega arith, (refl, omega arith, tt)))

table-IsValid : IsValid table
unfolding total size
table-IsValid = record { accounted = refl; fits = omega arith; numbered = table-Numbered }

insert-Inserts_example :
    Inserts
      (entry (codes "name") (codes "value") 0)
      table
      (insert keep_newer (entry (codes "name") (codes "value") 0) table 0)
unfolding total size
insert-Inserts_example =
    insert-Inserts keep_newer (entry (codes "name") (codes "value") 0) table 0 refl

insert-IsValid_example :
    IsValid (insert keep_newer (entry (codes "name") (codes "value") 0) table 0).0.0
insert-IsValid_example =
    insert-IsValid keep_newer (entry (codes "name") (codes "value") 0) table 0 table-IsValid

-- The two newest entries, of 70 bytes, may be referred to.
abbrev encoder_table : QpackEncoderTable
encoder_table = record {
  common = table;
  referenceable_limit = 80;
  referenceable = 2;
  referenceable_size = 70;
}

encoder_table-IsTracked : IsTracked encoder_table
unfolding total size
encoder_table-IsTracked = record {
  valid = table-IsValid;
  tracked = (omega arith, refl, omega arith);
}

insert_entry-IsTracked_example :
    Kept keep_newer encoder_table (insert_entry keep_newer (codes "x") (codes "yz") encoder_table 0)
insert_entry-IsTracked_example =
    insert_entry-IsTracked keep_newer (codes "x") (codes "yz") encoder_table 0
      encoder_table-IsTracked

shrink-Tracks_example :
    (n : ℕ) × (shrink table.dynamic 50 3 103 ≡ some (n, total (take n table.dynamic)))
    × (n ≤ 3)
    × (total (take n table.dynamic) ≤ 50)
    × ((n ≡ 3) ⊎ (50 < total (take (suc n) table.dynamic)))
unfolding total size
shrink-Tracks_example = shrink-Tracks table.dynamic 50 3 103 (omega arith) refl

get_dynamic-index_from_example :
    get_dynamic table (index_from (pos 5) (entry (codes "a") (codes "b") 6)) (pos 5)
    ≡ some (entry (codes "a") (codes "b") 6)
get_dynamic-index_from_example =
    get_dynamic-index_from table 1 5 (entry (codes "a") (codes "b") 6) table-Numbered refl
      (omega arith)

lookup_impl-first_example :
    lookup_impl table qpack_static_table (codes "a") (codes "x") 0 3
    ≡ found none
        (first
          (same_field (codes "a") (codes "x"))
          (map Entry.static qpack_static_table ++ map Entry.dynamic (slice 0 3 table.dynamic)))
        (first
          (same_name (codes "a"))
          (map Entry.static qpack_static_table ++ map Entry.dynamic (slice 0 3 table.dynamic)))
lookup_impl-first_example = lookup_impl-first table qpack_static_table (codes "a") (codes "x") 0 3

abbrev fields : List HeaderField
fields =
    record { name = codes ":status"; value = codes "200"; sensitive = false }
    ∷ record { name = codes "server"; value = codes "minhq"; sensitive = false }
    ∷ []

validate_pseudo_headers_iff_example : (validate_pseudo_headers fields ≡ none) ↔ InOrder fields
validate_pseudo_headers_iff_example = validate_pseudo_headers_iff fields

-- Two IDs may be given out of three asked for; the frame raises the limit to 5.
abbrev calls : List Call
calls =
    Call.next
    ∷ Call.next
    ∷ Call.frame FrameType.frame_max_push_id
        (record { source = record { bytes = 5 ∷ []; stop = Error.eof }; saved = 0; saved_bits = 0 })
    ∷ Call.next
    ∷ []

abbrev connection : ServerConnection
connection = record { next_push_id = 3; max_push_id = 4; cancelled_pushes = []; fatal = [] }

run-count_from_example :
    ((run calls connection).1 ≡ count_from 3 (length (run calls connection).1))
    × ((run calls connection).0.next_push_id ≡ 3 + length (run calls connection).1)
    × ((run calls connection).0.next_push_id ≤ (run calls connection).0.max_push_id)
run-count_from_example = run-count_from calls connection (omega arith)

abbrev threads : Threads
threads = record { next_push_id = 2; max_push_id = 3; points = λ i. Point.start }

duplicate_push_id_example :
    (t : Threads) × Reach threads t
    × (t.points 0 ≡ Point.returned 2)
    × (t.points 1 ≡ Point.returned 2)
duplicate_push_id_example = duplicate_push_id threads 0 1 (ground arith) refl refl (omega arith)

-- Each block is final, and a frame of another type is refused.
abbrev handlers : Handlers ℕ
handlers = record {
  read_header_block = λ h payload. (h + 1, ok fields);
  headers_handler = λ h fs. (h, ok true);
  frame_handler = λ h t payload. (h, some Error.unsupported_frame);
}

-- Headers, a body, trailers, and a body behind them that is refused.
abbrev frames : List Frame
frames =
    record { kind = FrameType.frame_headers; payload = 1 ∷ [] }
    ∷ record { kind = FrameType.frame_data; payload = 2 ∷ 3 ∷ [] }
    ∷ record { kind = FrameType.frame_headers; payload = [] }
    ∷ record { kind = FrameType.frame_data; payload = [] }
    ∷ []
