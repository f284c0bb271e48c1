-- ===== src/Hc/LargestReference.antt =====
-- The number at the head of a QPACK header block: `encodeLargestReference` of
-- hc/qpackencoder.go and `decodeLargestBase` of hc/qpackdecoder.go.
pub mod RoundTrip
use minhq.Base.{
  ℕ, ◌+◌, ◌-◌, ◌*◌, ◌/◌, ◌%◌, ◌^◌, Bool, ◌&&◌, Option, none, some, ltb, leb, ◌==◌, if◌then◌else◌,
}
use minhq.Base.Words.{u64}
use minhq.Hc.Table.{entry_overhead}

-- `none` is the panic of a division by zero.
unfoldable pub encode_largest_reference : ℕ → ℕ → Option ℕ
encode_largest_reference capacity largest_base =
    let max_entries = capacity / entry_overhead in
    if largest_base == 0
    then some 0
    else if u64 (2 * max_entries) == 0
    then none
    else some (u64 (largest_base % u64 (2 * max_entries) + 1))

-- All in uint64; the table's base is an int that is not negative.
pub decode_largest_base : ℕ → ℕ → ℕ → Option ℕ
decode_largest_base capacity table_base raw =
    let max_entries = capacity / entry_overhead in
    let full_range = u64 (max_entries * 2) in
    let max_value = u64 (table_base + max_entries) in
    let rounded = max_value / full_range * full_range in
    let largest = u64 (rounded + raw + (2 ^ 64 - 1)) in
    if raw == 0
    then some 0
    else if full_range == 0
    then none
    else if ltb max_value largest && leb full_range largest
    then some (largest - full_range)
    else some largest
