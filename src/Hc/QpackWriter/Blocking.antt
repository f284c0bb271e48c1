-- ===== src/Hc/QpackWriter/Blocking.antt =====
-- The bound that a block gets when its stream may not be blocked, over what is matched.
use minhq.Base.{◌≡◌, refl, inl, inr, Bool, true, false, Option, none, some, ltb, Bool-cases}
use minhq.Hc.Table.{Entry}
use minhq.Hc.QpackWriter.{
  Slot, WriterState, update_base, record_match, record_name, within_base, dyn_base,
}

-- The block refers to nothing above the maximum.
abbrev pub IsBounded : WriterState → Type 0
IsBounded state = within_base state.largest_base state.max_base ≡ true

update_base-IsBounded :
    (e : Entry) (full : Bool) (state : WriterState)
    → within_base (dyn_base e) state.max_base ≡ true
    → IsBounded state
    → IsBounded (update_base e full state)
      × ((update_base e full state).max_base ≡ state.max_base)
      × ((update_base e full state).was_blocked ≡ state.was_blocked)
unfolding update_base dyn_base
update_base-IsBounded (Entry.static e) full state h b = (b, refl, refl)
update_base-IsBounded (Entry.dynamic e) full state h b =
    elim (Bool-cases (ltb state.largest_base e.base)) [
      | inl higher ↦ rw higher (h, refl, refl)
      | inr lower ↦ rw lower (b, refl, refl)
    ]

abbrev pub Keeps : WriterState → WriterState → Type 0
Keeps state state' =
    IsBounded state' × (state'.max_base ≡ state.max_base) × (state'.was_blocked ≡ state.was_blocked)

record_name-Keeps :
    (name : Option Entry) (state : WriterState) (slot : Slot)
    → IsBounded state
    → Keeps state (record_name name state slot).0
unfolding record_name
record_name-Keeps none state slot b = (b, refl, refl)
record_name-Keeps (some e) state slot b =
    elim (Bool-cases (within_base (dyn_base e) state.max_base)) [
      | inl ok_base ↦ rw (ok_base, record_name) (update_base-IsBounded e false state ok_base b)
      | inr beyond ↦ rw (beyond, record_name) (b, refl, refl)
    ]

-- Whatever is matched, the bound stays.
pub record_match-Keeps :
    (full name : Option Entry) (state : WriterState) (slot : Slot)
    → IsBounded state
    → Keeps state (record_match full name state slot).0
unfolding record_match
record_match-Keeps none name state slot b = record_name-Keeps name state slot b
record_match-Keeps (some e) name state slot b =
    elim (Bool-cases (within_base (dyn_base e) state.max_base)) [
      | inl ok_base ↦ rw (ok_base, record_match) (update_base-IsBounded e true state ok_base b)
      | inr beyond ↦ rw (beyond, record_match) (record_name-Keeps name state slot b)
    ]
