-- ===== src/Hc/QpackWriter/Blocks/Uses.antt =====
-- What a header block that is written refers to.
use minhq.Base.{ℕ, ◌≤◌, inl, inr, List, [], ◌∷◌, Option, none, some, Option-cases}
use minhq.Io.BitWriter.{BitWriter}
use minhq.Hc.Strings.{HuffmanCodingChoice}
use minhq.Hc.Table.{Entry}
use minhq.Hc.UsageTracker.{HeaderBlockUsage, Counts}
use minhq.Hc.UsageTracker.Blocked.{block_add-largest}
use minhq.Hc.QpackWriter.{Slot, dyn_base}
use minhq.Hc.QpackWriter.Slots.{EntryWithin, SlotWithin}
use minhq.Hc.QpackWriter.Blocks.Rounds.{AllWithin}
use minhq.Hc.QpackWriter.Blocks.{write_slot, write_slots, add_use, use_entry}

-- The uses of a block stand at or below the largest base.
abbrev pub UsesWithin : ℕ → HeaderBlockUsage × Counts → Type 0
UsesWithin l uses = uses.0.largest ≤ l

use_entry-UsesWithin :
    (l : ℕ) (o : Option Entry) (block : HeaderBlockUsage) (counts : Counts)
    → EntryWithin l o
    → block.largest ≤ l
    → UsesWithin l (use_entry o (block, counts))
unfolding use_entry dyn_base
use_entry-UsesWithin l none block counts w h = h
use_entry-UsesWithin l (some (Entry.static e)) block counts w h = h
use_entry-UsesWithin l (some (Entry.dynamic e)) block counts w h =
    block_add-largest l e.base block counts w h

add_use-UsesWithin :
    (l : ℕ) (slot : Slot) (uses : HeaderBlockUsage × Counts)
    → SlotWithin l slot
    → UsesWithin l uses
    → UsesWithin l (add_use slot uses)
unfolding add_use
add_use-UsesWithin l slot (block, counts) w h = elim (Option-cases slot.full_match) [
  | inl missing ↦
      simp (missing, add_use) (use_entry-UsesWithin l slot.name_match block counts w.name h)
  | inr (e, there) ↦
      let here : EntryWithin l (some e) = rw there at w.full in
      simp (there, add_use) (use_entry-UsesWithin l (some e) block counts here h)
]

pub write_slots-UsesWithin :
    (huffman : HuffmanCodingChoice) (l : ℕ) (slots : List Slot) (uses : HeaderBlockUsage × Counts)
    (bw : BitWriter)
    → AllWithin l slots
    → UsesWithin l uses
    → UsesWithin l (write_slots huffman l slots uses bw).0
unfolding write_slots
write_slots-UsesWithin huffman l [] uses bw w h = h
write_slots-UsesWithin huffman l (slot ∷ slots) uses bw (here, after) h =
    elim (Option-cases (write_slot huffman l slot bw).1) [
      | inr (e, failed) ↦ rw (failed, write_slots) h
      | inl sent ↦
          rw (sent, write_slots)
            (write_slots-UsesWithin huffman l slots (add_use slot uses)
              (write_slot huffman l slot bw).0 after (add_use-UsesWithin l slot uses here h))
    ]
