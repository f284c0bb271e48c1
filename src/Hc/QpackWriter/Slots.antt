-- ===== src/Hc/QpackWriter/Slots.antt =====
-- The entries that a block refers to stand at or below its largest base.
use minhq.Base.{ℕ, ◌≤◌, inl, inr, Bool, true, false, Option, none, some, ltb, Bool-cases, arith}
use minhq.Hc.Table.{Entry}
use minhq.Hc.QpackWriter.{
  Slot, WriterState, update_base, record_match, record_name, within_base, dyn_base,
}

abbrev pub EntryWithin : ℕ → Option Entry → Type 0
EntryWithin l o = elim o [ none ↦ Unit {0} | some e ↦ dyn_base e ≤ l ]

pub record SlotWithin (l : ℕ) (slot : Slot) : Type 0 where
  pub full : EntryWithin l slot.full_match
  pub name : EntryWithin l slot.name_match

EntryWithin-mono : (l l' : ℕ) (o : Option Entry) → l ≤ l' → EntryWithin l o → EntryWithin l' o
EntryWithin-mono l l' none h w = tt
EntryWithin-mono l l' (some e) h w = omega (arith, h, w)

pub SlotWithin-mono : (l l' : ℕ) (slot : Slot) → l ≤ l' → SlotWithin l slot → SlotWithin l' slot
SlotWithin-mono l l' slot h w = record {
  full = EntryWithin-mono l l' slot.full_match h w.full;
  name = EntryWithin-mono l l' slot.name_match h w.name;
}

update_base-Within :
    (e : Entry) (full : Bool) (state : WriterState)
    → (state.largest_base ≤ (update_base e full state).largest_base)
      × (dyn_base e ≤ (update_base e full state).largest_base)
unfolding update_base dyn_base
update_base-Within (Entry.static e) full state = (omega arith, omega arith)
update_base-Within (Entry.dynamic e) full state =
    elim (Bool-cases (ltb state.largest_base e.base)) [
      | inl higher ↦ rw higher (ground arith, omega arith)
      | inr lower ↦ rw lower (omega arith, ground arith)
    ]

-- The state has not gone below `l`, and the slot is within it.
abbrev pub IsCovered : ℕ → WriterState → Slot → Type 0
IsCovered l state slot = (l ≤ state.largest_base) × SlotWithin state.largest_base slot

record_name-IsCovered :
    (l : ℕ) (name : Option Entry) (state : WriterState) (slot : Slot)
    → IsCovered l state slot
    → IsCovered l (record_name name state slot).0 (record_name name state slot).1
unfolding record_name
record_name-IsCovered l none state slot c = c
record_name-IsCovered l (some e) state slot (low, w) =
    let (grown, below) = update_base-Within e false state in
    elim (Bool-cases (within_base (dyn_base e) state.max_base)) [
      | inl ok_base ↦
          rw (ok_base, record_name)
            (
              omega (arith, low, grown),
              record { full = (SlotWithin-mono _ _ slot grown w).full; name = below },
            )
      | inr beyond ↦ rw (beyond, record_name) (low, w)
    ]

pub record_match-IsCovered :
    (l : ℕ) (full name : Option Entry) (state : WriterState) (slot : Slot)
    → IsCovered l state slot
    → IsCovered l (record_match full name state slot).0 (record_match full name state slot).1
unfolding record_match
record_match-IsCovered l none name state slot c = record_name-IsCovered l name state slot c
record_match-IsCovered l (some e) name state slot (low, w) =
    let (grown, below) = update_base-Within e true state in
    elim (Bool-cases (within_base (dyn_base e) state.max_base)) [
      | inl ok_base ↦
          rw (ok_base, record_match)
            (
              omega (arith, low, grown),
              record { full = below; name = (SlotWithin-mono _ _ slot grown w).name },
            )
      | inr beyond ↦ rw (beyond, record_match) (record_name-IsCovered l name state slot (low, w))
    ]
