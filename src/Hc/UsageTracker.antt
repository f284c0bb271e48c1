-- ===== src/Hc/UsageTracker.antt =====
-- hc/qpacktable.go: which header blocks refer to which entries, and how often an entry is used.
-- An entry is a pointer that the table and the blocks share: here it is its number, and the use
-- counts of all entries are one store.
pub mod Counting
pub mod Bounding
pub mod Blocked
use minhq.Base.{
  ℕ, ◌+◌, ◌-◌, ◌^◌, List, [], ◌∷◌, ◌++◌, Option, none, some, ltb, max, ◌==◌, length, if◌then◌else◌,
}
use minhq.Base.Int.{ℤ, pos, negsuc}
use minhq.Base.Words.{u64}

-- The use count of each entry, a uint.
abbrev pub Counts : Type 0
Counts = ℕ → ℕ

abbrev pub in_use : ℕ → Counts → ℕ
in_use entry counts = counts entry

pub change : ℕ → ℕ → Counts → Counts
change entry n counts other = if other == entry then n else counts other

pub record HeaderBlockUsage : Type 0 where
  pub entries : List ℕ
  pub largest : ℕ

pub block_add : ℕ → HeaderBlockUsage × Counts → HeaderBlockUsage × Counts
block_add entry (block, counts) = (
  record {
    entries = block.entries ++ entry ∷ [];
    largest = if ltb block.largest entry then entry else block.largest;
  },
  change entry (u64 (counts entry + 1)) counts,
)

-- The uses that `addUse` records while a header block is written.
pub add_uses : List ℕ → HeaderBlockUsage × Counts → HeaderBlockUsage × Counts
add_uses [] uses = uses
add_uses (entry ∷ entries) uses = add_uses entries (block_add entry uses)

abbrev pub new_block : HeaderBlockUsage
new_block = record { entries = []; largest = 0 }

-- The loop of `ack` on the entries of a block.
pub release : List ℕ → Counts → Counts
release [] counts = counts
release (entry ∷ entries) counts =
    release entries (change entry (u64 (counts entry + (2 ^ 64 - 1))) counts)

abbrev pub StreamUsage : Type 0
StreamUsage = List HeaderBlockUsage

pub stream_add : HeaderBlockUsage → StreamUsage → StreamUsage
stream_add block su = su ++ block ∷ []

-- The oldest block goes, and its largest reference is the answer.
pub stream_ack : StreamUsage → Counts → (StreamUsage × Counts) × ℕ
stream_ack [] counts = (([], counts), 0)
stream_ack (z ∷ su) counts = ((su, release z.entries counts), z.largest)

pub stream_max : StreamUsage → ℕ
stream_max [] = 0
stream_max (z ∷ su) = max z.largest (stream_max su)

-- The loop of `cancel`; its answer is the largest reference of all blocks.
pub stream_cancel : StreamUsage → Counts → Counts
stream_cancel [] counts = counts
stream_cancel (z ∷ su) counts = stream_cancel su (release z.entries counts)

-- The map from stream IDs.
abbrev pub UsageTracker : Type 0
UsageTracker = List (ℕ × StreamUsage)

pub find : ℕ → UsageTracker → Option StreamUsage
find id [] = none
find id ((key, su) ∷ ut) = if key == id then some su else find id ut

pub put : ℕ → StreamUsage → UsageTracker → UsageTracker
put id su [] = (id, su) ∷ []
put id su ((key, old) ∷ ut) =
    let rest = put id su ut in if key == id then (key, su) ∷ ut else (key, old) ∷ rest

pub delete : ℕ → UsageTracker → UsageTracker
delete id [] = []
delete id ((key, su) ∷ ut) = let rest = delete id ut in if key == id then ut else (key, su) ∷ rest

-- `get`, which makes the stream's usage where there is none.
pub get : ℕ → UsageTracker → UsageTracker × StreamUsage
get id ut = elim (find id ut) [ some su ↦ (ut, su) | none ↦ (put id [] ut, []) ]

-- The `get` of `writeTableChanges`, and `recordUsage` on what it returns. The block is a pointer: what
-- `addUse` adds later is in it, or is put there by `fill_newest`.
pub record_usage : ℕ → ℕ → HeaderBlockUsage → UsageTracker → UsageTracker
unfolding get
record_usage largest_base id block ut =
    let (ut', su) = get id ut in
    if ltb 0 largest_base then put id (stream_add block su) ut' else ut'

pub replace_newest : HeaderBlockUsage → StreamUsage → StreamUsage
replace_newest block [] = []
replace_newest block (z ∷ []) = block ∷ []
replace_newest block (z ∷ y ∷ su) = z ∷ replace_newest block (y ∷ su)

-- The newest block of a stream is a pointer: this is the tracker when `block` is what it points to.
pub fill_newest : ℕ → HeaderBlockUsage → UsageTracker → UsageTracker
fill_newest id block ut = elim (find id ut) [
  | none ↦ ut
  | some su ↦ put id (replace_newest block su) ut
]

after_ack : ℕ → UsageTracker → (StreamUsage × Counts) × ℕ → (UsageTracker × Counts) × (ℕ × ℕ)
after_ack id ut ((su, counts), largest) =
    ((if length su == 0 then delete id ut else put id su ut, counts), (largest, stream_max su))

-- The oldest block of the stream, and the largest reference of those that are left.
pub ack : ℕ → UsageTracker → Counts → (UsageTracker × Counts) × (ℕ × ℕ)
unfolding after_ack
ack id ut counts = elim (find id ut) [
  | none ↦ ((ut, counts), (0, 0))
  | some su ↦ after_ack id ut (stream_ack su counts)
]

pub cancel : ℕ → UsageTracker → Counts → (UsageTracker × Counts) × ℤ
cancel id ut counts = elim (find id ut) [
  | none ↦ ((ut, counts), negsuc 0)
  | some su ↦ ((delete id ut, stream_cancel su counts), pos (stream_max su))
]

unfoldable pub count_blocked_streams : ℕ → UsageTracker → ℕ
count_blocked_streams largest_acknowledged [] = 0
count_blocked_streams largest_acknowledged ((key, su) ∷ ut) =
    let rest = count_blocked_streams largest_acknowledged ut in
    if ltb largest_acknowledged (stream_max su) then rest + 1 else rest
