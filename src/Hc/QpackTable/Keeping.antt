-- ===== src/Hc/QpackTable/Keeping.antt =====
-- The entries of the encoder's table behind `QpackEncoderTable.Insert`.
use minhq.Base.{
  ℕ, ◌+◌, ◌≡◌, subst, refl, inl, inr, Bool, true, false, Option, none, some, Option-cases,
}
use minhq.Base.Names.{Name}
use minhq.Hc.Table.{DynamicEntry, TableCommon, EvictionCheck, size, insert}
use minhq.Hc.Table.Evicting.{total}
use minhq.Hc.Table.Inserting.{Inserts, insert-Inserts}
use minhq.Hc.QpackTable.{
  QpackEncoderTable, shrink, added, evict_wrapper, insert_entry, after_insert, with_referenceable,
}

-- The outcome has the table and the answer of the insertion into `tableCommon`.
Common :
    {S : Type 0}
    → (TableCommon × (S × (ℕ × ℕ))) × Bool
    → Option ((QpackEncoderTable × S) × Bool)
    → Type 0
Common r none = Unit {0}
Common r (some x) = (x.0.0.common ≡ r.0.0) × (x.1 ≡ r.1)

after_insert-Common :
    {S : Type 0} (e : DynamicEntry) (qt : QpackEncoderTable)
    (r : (TableCommon × (S × (ℕ × ℕ))) × Bool)
    → Common r (after_insert e qt r)
unfolding Common after_insert added with_referenceable
after_insert-Common e qt ((t, (s, (n, z))), false) = (refl, refl)
after_insert-Common e qt ((t, (s, (n, z))), true) =
    elim (Option-cases (shrink t.dynamic qt.referenceable_limit (n + 1) (z + size e))) [
      | inl panics ↦ rw (panics, after_insert, added, with_referenceable) tt
      | inr (x, shrunk) ↦ rw (shrunk, after_insert, added, with_referenceable) (refl, refl)
    ]

same-Inserts :
    {S : Type 0} {S' : Type 0} (e : DynamicEntry) (t : TableCommon) (r : (TableCommon × S) × Bool)
    (r' : (TableCommon × S') × Bool)
    → r'.0.0 ≡ r.0.0
    → r'.1 ≡ r.1
    → Inserts e t r
    → Inserts e t r'
same-Inserts e t ((t1, s), true) ((t2, s'), true) same answer h = rw same h
same-Inserts e t ((t1, s), false) ((t2, s'), false) same answer h = rw same h
same-Inserts e t ((t1, s), true) ((t2, s'), false) same answer h = cc
same-Inserts e t ((t1, s), false) ((t2, s'), true) same answer h = cc

pub insert_entry-Inserts :
    {S : Type 0} (evict : EvictionCheck S) (name value : Name) (qt qt' : QpackEncoderTable)
    (s s' : S) (inserted : Bool)
    → qt.common.used ≡ total qt.common.dynamic
    → insert_entry evict name value qt s ≡ some ((qt', s'), inserted)
    → Inserts
        (record { name = name; value = value; base = 0; usage_count = 0 })
        qt.common
        ((qt'.common, s'), inserted)
unfolding insert_entry Common
insert_entry-Inserts {S} evict name value qt qt' s s' inserted accounted e =
    let entry : DynamicEntry = record { name = name; value = value; base = 0; usage_count = 0 } in
    let state : S × (ℕ × ℕ) = (s, (qt.referenceable, qt.referenceable_size)) in
    let r = insert (evict_wrapper evict qt.common.base) entry qt.common state in
    let (same, answer) : Common r (some ((qt', s'), inserted)) =
      subst (λ o. Common r o) e (after_insert-Common entry qt r) in
    same-Inserts entry qt.common r ((qt'.common, s'), inserted) same answer
      (insert-Inserts (evict_wrapper evict qt.common.base) entry qt.common state accounted)
