-- ===== src/Hc/QpackTable/Steady.antt =====
-- The state of an eviction check over `QpackEncoderTable.Insert`.
use minhq.Base.{
  ℕ, Bool, true, false, Option, none, some, ltb, inl, inr, Bool-cases, Option-cases, not,
}
use minhq.Base.Names.{Name}
use minhq.Hc.Table.{DynamicEntry, TableCommon, EvictionCheck}
use minhq.Hc.Table.Steady.{KeptBy, insert-keeps}
use minhq.Hc.QpackTable.{QpackEncoderTable, added, evict_wrapper, after_insert, insert_entry}

-- What holds of an outcome, unless it is a panic.
abbrev pub IfAny : {A : Type 0} → (A → Type 0) → Option A → Type 0
IfAny P o = elim o [ none ↦ Unit {0} | some a ↦ P a ]

module _ {S : Type 0} (can_evict : EvictionCheck S) (P : S → Type 0)
    (kept : KeptBy P can_evict) where
  wrapper-KeptBy : (base : ℕ) → KeptBy (λ (s : S × (ℕ × ℕ)). P s.0) (evict_wrapper can_evict base)
  unfolding evict_wrapper
  wrapper-KeptBy base (s, counters) e p = elim (Bool-cases (not (can_evict s e).1)) [
    | inl refused ↦ rw (refused, evict_wrapper) (kept s e p)
    | inr allowed ↦ elim (Bool-cases (ltb 0 e.usage_count)) [
      | inl used ↦ rw (allowed, evict_wrapper, used) (kept s e p)
      | inr unused ↦ rw (allowed, evict_wrapper, unused) (kept s e p)
    ]
  ]

  after_insert-keeps :
      (e : DynamicEntry) (qt : QpackEncoderTable) (r : (TableCommon × (S × (ℕ × ℕ))) × Bool)
      → P r.0.1.0
      → IfAny (λ x. P x.0.1) (after_insert e qt r)
  unfolding after_insert
  after_insert-keeps e qt ((t, (s, (n, z))), false) p = p
  after_insert-keeps e qt ((t, (s, (n, z))), true) p =
      elim (Option-cases
        (added e (record qt { common = t; referenceable = n; referenceable_size = z }))) [
          | inl panics ↦ rw (panics, after_insert) tt
          | inr (x, shrunk) ↦ rw (shrunk, after_insert) p
        ]

  pub insert_entry-keeps :
      (name value : Name) (qt : QpackEncoderTable) (s : S)
      → P s
      → IfAny (λ x. P x.0.1) (insert_entry can_evict name value qt s)
  unfolding insert_entry
  insert_entry-keeps name value qt s p = after_insert-keeps _ qt _ (
      insert-keeps (evict_wrapper can_evict qt.common.base) (λ s. P s.0)
        (wrapper-KeptBy qt.common.base)
        (record { name = name; value = value; base = 0; usage_count = 0 }) qt.common
        (s, (qt.referenceable, qt.referenceable_size)) p)
