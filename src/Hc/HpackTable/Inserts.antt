-- ===== src/Hc/HpackTable/Inserts.antt =====
-- What `HpackTable.Insert` and `Lookup` keep and find.
use minhq.Base.{◌≡◌, subst, refl, Bool, true, false, inl, inr, length, take_all, arith}
use minhq.Base.Names.{Name}
use minhq.Hc.StaticTable.{hpack_static_table}
use minhq.Hc.Table.{DynamicEntry, TableCommon, no_check}
use minhq.Hc.Table.Inserting.{IsValid, Inserts, insert-Inserts, insert-IsValid}
use minhq.Hc.Table.Finding.{FullMatches, Matches, lookup_impl-Matches}
use minhq.Hc.HpackTable.{hpack_insert, hpack_lookup}

abbrev new_entry : Name → Name → DynamicEntry
new_entry name value = record { name = name; value = value; base = 0; usage_count = 0 }

pub hpack_insert-IsValid :
    (name value : Name) (t : TableCommon) → IsValid t → IsValid (hpack_insert name value t).0
unfolding hpack_insert
hpack_insert-IsValid name value t v = insert-IsValid no_check (new_entry name value) t tt v

Inserts-capacity :
    (e : DynamicEntry) (t : TableCommon) (r : (TableCommon × Unit {0}) × Bool)
    → Inserts e t r
    → r.0.0.capacity ≡ t.capacity
Inserts-capacity e t ((t', s), true) (small, k, eq, fits, more) = rw eq refl
Inserts-capacity e t ((t', s), false) (inl same) = rw same refl
Inserts-capacity e t ((t', s), false) (inr (big, eq)) = rw eq refl

pub hpack_insert-capacity :
    (name value : Name) (t : TableCommon)
    → IsValid t
    → (hpack_insert name value t).0.capacity ≡ t.capacity
unfolding hpack_insert
hpack_insert-capacity name value t v =
    Inserts-capacity (new_entry name value) t _
      (insert-Inserts no_check (new_entry name value) t tt v.accounted)

pub hpack_lookup-Matches :
    (name value : Name) (t : TableCommon)
    → FullMatches name value hpack_static_table t.dynamic (hpack_lookup name value t).0
      × Matches name hpack_static_table t.dynamic (hpack_lookup name value t).1
unfolding hpack_lookup
hpack_lookup-Matches name value t =
    subst
      (λ es.
        FullMatches name value hpack_static_table es (hpack_lookup name value t).0
        × Matches name hpack_static_table es (hpack_lookup name value t).1)
      (take_all t.dynamic (length t.dynamic) (omega arith))
      (lookup_impl-Matches t hpack_static_table name value 0 (length t.dynamic))
