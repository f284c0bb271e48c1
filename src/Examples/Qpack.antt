-- ===== src/Examples/Qpack.antt =====
-- Concrete inputs to the theorems on the QPACK encoder and decoder.
use minhq.Base.{List, false, ℕ, ◌+◌, ◌-◌, ◌≡◌, refl, [], ◌∷◌, Bool, true, some, Error, arith}
use minhq.Base.Int.{pos}
use minhq.Base.Names.{codes}
use minhq.Io.BitWriter.{new_bit_writer}
use minhq.Hc.Headers.{HeaderField}
use minhq.Hc.QpackWriter.{Stream}
use minhq.Hc.QpackWriter.Calls.{Call}
use minhq.Base.{map, leb, ◌&&◌, if◌then◌else◌}
use minhq.Base.Names.{Name}
use minhq.Io.Travels.{Travels}
use minhq.Hc.Table.{DynamicEntry, TableCommon, no_check, size}
use minhq.Hc.Table.Evicting.{total}
use minhq.Hc.QpackFeedback.{header_acknowledgment, table_state_synchronize, write_instruction}
use minhq.Hc.UsageTracker.Bounding.{StreamWithin, IsWithin}
use minhq.Hc.QpackEncoder.{obey}
use minhq.Hc.QpackEncoder.Obeying.{IsConsistent, Obeys, IsInRange, obey-Obeys}
use minhq.Hc.QpackFeedback.Travelling.{instruction_bits}
use minhq.Hc.QpackEncoder.{QpackEncoder, insert_checked, acknowledge_insert, read_instruction}
use minhq.Hc.QpackEncoder.Accounting.{IsAccounted, Acknowledges, acknowledge_insert-Acknowledges}
use minhq.Hc.QpackEncoder.Inserting.{IsSound, insert_checked-IsSound}
use minhq.Hc.QpackEncoder.Instructions.{read_instruction-Travels}
use minhq.Hc.QpackEncoder.Overshooting.{later, synchronize_overshoots}
use minhq.Base.Int.{◌+ℤ◌, ◌-ℤ◌}
use minhq.Hc.Table.{get_dynamic}
use minhq.Hc.QpackDecoder.{qpack_get_dynamic}
use minhq.Hc.QpackDecoder.HeaderBlocks.{post_base_entry, post_base_name_entry}
use minhq.Hc.QpackDecoder.HeaderBlocks.PostBase.{post_base_names_lag}

abbrev entry : ℕ → DynamicEntry
entry n = record { name = codes "a"; value = codes "b"; base = n; usage_count = 0 }

-- Three entries, of which the newest is not acknowledged.
abbrev three_entries : TableCommon
three_entries = record {
  dynamic = entry 3 ∷ entry 2 ∷ entry 1 ∷ [];
  capacity = 200;
  used = 102;
  base = 3;
}

abbrev some_encoder : QpackEncoder
some_encoder = record {
  table = record {
    common = three_entries;
    referenceable_limit = 150;
    referenceable = 3;
    referenceable_size = 102;
  };
  usage = [];
  uses = λ n. 0;
  max_blocked_streams = 4;
  highest_acknowledged = 2;
  unacknowledged_size = 34;
  blocked_streams = pos 0;
}

some_encoder-IsAccounted : IsAccounted some_encoder
unfolding total size
some_encoder-IsAccounted = record {
  valid = record {
    accounted = refl;
    fits = omega arith;
    numbered = (refl, omega arith, (refl, omega arith, (refl, omega arith, tt)));
  };
  within = omega arith;
  small = omega arith;
  behind = omega arith;
  present = omega arith;
  sizes = refl;
}

some_encoder-IsSound : IsSound some_encoder
unfolding total size
some_encoder-IsSound = record {
  tracked = record {
    valid = some_encoder-IsAccounted.valid;
    tracked = (omega arith, refl, omega arith);
  };
  account = some_encoder-IsAccounted;
}

insert_checked-IsSound_example :
    (e' : QpackEncoder) × (s' : Unit {0}) × (inserted : Bool) × (insert_checked no_check
        (codes "c")
        (codes "d")
        some_encoder
        tt
      ≡ some ((e', s'), inserted))
    × IsSound e'
insert_checked-IsSound_example =
    insert_checked-IsSound no_check (codes "c") (codes "d") some_encoder tt some_encoder-IsSound
      (omega arith)

acknowledge_insert-Acknowledges_example :
    Acknowledges 1 some_encoder (acknowledge_insert 1 some_encoder)
acknowledge_insert-Acknowledges_example =
    acknowledge_insert-Acknowledges 1 some_encoder some_encoder-IsAccounted (omega arith)

read_instruction-Travels_example :
    Travels
      (instruction_bits (table_state_synchronize 70))
      (write_instruction (table_state_synchronize 70))
      read_instruction
      (table_state_synchronize 70)
read_instruction-Travels_example =
    read_instruction-Travels (table_state_synchronize 70) (omega arith)

synchronize_overshoots_example :
    ((later 2 1 8 (record { largest_acknowledged = 2; sync_largest = 2; delay_tss = true })).1
      ≡ some (table_state_synchronize (2 + 1 - 1)))
    × (acknowledge_insert (2 + 1 - 1) some_encoder ≡ some (some_encoder, some Error.index_error))
synchronize_overshoots_example =
    synchronize_overshoots 2 1 8 true some_encoder (omega arith) (omega arith) (omega arith) refl
      refl

post_base_names_lag_example : (entry 3).base ≡ (entry 2).base + 1
unfolding post_base_entry post_base_name_entry qpack_get_dynamic get_dynamic ◌-ℤ◌ ◌+ℤ◌
post_base_names_lag_example =
    post_base_names_lag three_entries 1 (pos 1) (entry 3) (entry 2)
      (refl, omega arith, (refl, omega arith, (refl, omega arith, tt))) refl refl

-- An encoder that may block one more stream, on a transport that accepts.
abbrev near_limit : Stream
near_limit = record {
  encoder = record some_encoder { blocked_streams = pos 3 };
  writer = new_bit_writer (record { bytes = []; answers = []; byte_writer = true });
}

abbrev new_field : List HeaderField
new_field = record { name = codes "x"; value = codes "y"; sensitive = false } ∷ []

abbrev ascii_lower : Name → Name
ascii_lower = map (λ c. if leb 65 c && leb c 90 then c + 32 else c)

-- A block that is inserted, its acknowledgment, and a lower limit.
abbrev some_calls : List Call
some_calls =
    Call.write_headers 5 new_field (record { bytes = []; answers = []; byte_writer = true })
    ∷ Call.take_instruction (header_acknowledgment 5)
    ∷ Call.limit_blocked 3
    ∷ []

-- A stream has a block out that refers to the newest entry.
abbrev waiting_encoder : QpackEncoder
waiting_encoder = record some_encoder {
  usage = (5, record { entries = 3 ∷ []; largest = 3 } ∷ []) ∷ [];
  blocked_streams = pos 1;
}

waiting_encoder-IsConsistent : IsConsistent waiting_encoder
unfolding IsWithin StreamWithin total size
waiting_encoder-IsConsistent = record {
  account = record {
    valid = some_encoder-IsAccounted.valid;
    within = omega arith;
    small = omega arith;
    behind = omega arith;
    present = omega arith;
    sizes = refl;
  };
  references = ((omega arith, tt), tt);
}

obey-Obeys_example : Obeys waiting_encoder (obey (header_acknowledgment 5) waiting_encoder)
unfolding IsInRange
obey-Obeys_example =
    obey-Obeys (header_acknowledgment 5) waiting_encoder waiting_encoder-IsConsistent tt
