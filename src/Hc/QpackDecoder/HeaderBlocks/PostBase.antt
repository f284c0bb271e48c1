-- ===== src/Hc/QpackDecoder/HeaderBlocks/PostBase.antt =====
-- The two kinds of reference to entries behind the base of a block.
use minhq.Base.{ℕ, ◌+◌, ◌≡◌, some, arith, inl, inr, Option-cases}
use minhq.Base.Int.{ℤ, pos, negsuc, ◌-ℤ◌}
use minhq.Hc.Table.{Entry, DynamicEntry, TableCommon, get_dynamic}
use minhq.Hc.Table.Numbering.{Numbered, get_dynamic-base}
use minhq.Hc.QpackDecoder.{qpack_get_dynamic}
use minhq.Hc.QpackDecoder.HeaderBlocks.{post_base_entry, post_base_name_entry}

found-base :
    (t : TableCommon) (i base : ℤ) (e : DynamicEntry)
    → Numbered t.base t.dynamic
    → qpack_get_dynamic t i base ≡ some (Entry.dynamic e)
    → pos e.base ≡ base -ℤ i
unfolding qpack_get_dynamic
found-base t i base e num at = elim (Option-cases (get_dynamic t i base)) [
  | inl none_there ↦ cc (rw (none_there, qpack_get_dynamic) at at)
  | inr (x, there) ↦
      let same : some (Entry.dynamic x) ≡ some (Entry.dynamic e) =
        rw (there, qpack_get_dynamic) at at in
      let one : x ≡ e = cc in rw one at (get_dynamic-base t i base x num there)
]

-- x is one behind y, when both stand behind the same base.
one_apart :
    (x y i : ℕ) (base : ℤ) → pos x ≡ base -ℤ negsuc i → pos y ≡ base -ℤ (pos 0 -ℤ pos i) → x ≡ y + 1
unfolding ◌-ℤ◌
one_apart x y i (pos b) h h' = ground arith
one_apart x y i (negsuc b) h h' = ground arith

-- A post-base index of a name and one of a field mean different entries: for any base and index,
-- the dynamic entry that `readPostBaseIndexed` finds is numbered one higher than the one that
-- `readLiteralWithPostBaseNameReference` finds, in a table whose entries are numbered without
-- gaps.
pub post_base_names_lag :
    (t : TableCommon) (i : ℕ) (base : ℤ) (e e' : DynamicEntry)
    → Numbered t.base t.dynamic
    → post_base_entry t i base ≡ some (Entry.dynamic e)
    → post_base_name_entry t i base ≡ some (Entry.dynamic e')
    → e.base ≡ e'.base + 1
unfolding post_base_entry post_base_name_entry
post_base_names_lag t i base e e' num at at' =
    one_apart e.base e'.base i base (found-base t (negsuc i) base e num at)
      (found-base t (pos 0 -ℤ pos i) base e' num at')
