-- ===== src/Hc/Table/Inserting.antt =====
-- What `insert` does to a table, whatever the eviction check answers.
use minhq.Base.{
  ℕ, suc, ◌+◌, ◌-◌, ◌≤◌, ◌<◌, ◌≡◌, refl, ◌⊎◌, inl, inr, [], ◌∷◌, Bool, true, false, length, take,
  arith, Bool-cases, ltb, ltb→lt, ltb_false→le,
}
use minhq.Hc.Table.{DynamicEntry, TableCommon, EvictionCheck, size, insert, clear, push_front}
use minhq.Hc.Table.Evicting.{total, Evicts, evict_to-Evicts}
use minhq.Hc.Table.Numbering.{Numbered, Numbered-take}

-- The table's accounting: the sizes add up, they fit, and the numbers have no gap.
pub record IsValid (t : TableCommon) : Type 0 where
  pub accounted : t.used ≡ total t.dynamic
  pub fits : t.used ≤ t.capacity
  pub numbered : Numbered t.base t.dynamic

-- The entry as it is stored.
abbrev pub stored : TableCommon → DynamicEntry → DynamicEntry
stored t e = record e { base = t.base + 1 }

module _ {S : Type 0} where
  -- On success the entry is the newest, numbered next, in front of as many of the newest entries as
  -- still fit. On failure nothing changes, unless the entry is above the capacity: then the table
  -- may have been emptied.
  abbrev pub Inserts : DynamicEntry → TableCommon → (TableCommon × S) × Bool → Type 0
  Inserts e t ((t', s), true) =
      (size e ≤ t.capacity)
      × (k : ℕ) × (t' ≡ record t {
        dynamic = stored t e ∷ take k t.dynamic;
        base = t.base + 1;
        used = total (take k t.dynamic) + size e;
      })
      × (total (take k t.dynamic) + size e ≤ t.capacity)
      × ((k ≡ length t.dynamic) ⊎ (t.capacity < total (take (suc k) t.dynamic) + size e))
  Inserts e t ((t', s), false) =
      (t' ≡ t) ⊎ ((t.capacity < size e) × (t' ≡ record t { dynamic = []; used = 0 }))

module _ {S : Type 0} (can_evict : EvictionCheck S) where
  clear-Inserts :
      (e : DynamicEntry) (t : TableCommon) (r : (TableCommon × S) × Bool)
      → t.capacity < size e
      → Evicts can_evict 0 t r
      → Inserts e t (clear can_evict r)
  unfolding clear
  clear-Inserts e t ((t', s), false) big h = inl h
  clear-Inserts e t ((t', s), true) big (k, eq, fits, more) = inr (big, rw eq refl)

  push_front-Inserts :
      (e : DynamicEntry) (t : TableCommon) (r : (TableCommon × S) × Bool)
      → size e ≤ t.capacity
      → Evicts can_evict (t.capacity - size e) t r
      → Inserts e t (push_front can_evict e r)
  unfolding push_front
  push_front-Inserts e t ((t', s), false) small h = inl h
  push_front-Inserts e t ((t', s), true) small (k, eq, fits, more) =
      (small, k, rw eq (unfold size in refl), omega arith, room)
    where
      room : (k ≡ length t.dynamic) ⊎ (t.capacity < total (take (suc k) t.dynamic) + size e)
      room = elim more [ inl same ↦ inl same | inr h ↦ inr (omega arith) ]

  -- `insert` on a table whose `used` is the total of its sizes, whatever the eviction check
  -- answers: on success the entry is the newest, numbered next, in front of the longest run of the
  -- newest entries that fits; on failure the table is unchanged, or emptied when the entry is
  -- above the capacity.
  pub insert-Inserts :
      (e : DynamicEntry) (t : TableCommon) (s : S)
      → t.used ≡ total t.dynamic
      → Inserts e t (insert can_evict e t s)
  unfolding insert
  insert-Inserts e t s h = elim (Bool-cases (ltb t.capacity (size e))) [
    | inl big ↦ rw big (clear-Inserts e t _ (ltb→lt _ _ big) (evict_to-Evicts can_evict 0 t s h))
    | inr small ↦ rw small (
        push_front-Inserts e t _ (ltb_false→le _ _ small)
          (evict_to-Evicts can_evict (t.capacity - size e) t s h))
  ]

Inserts-IsValid :
    {S : Type 0} (e : DynamicEntry) (t : TableCommon) (r : (TableCommon × S) × Bool)
    → IsValid t
    → Inserts e t r
    → IsValid r.0.0
unfolding total size
Inserts-IsValid e t ((t', s), true) v (small, k, eq, fits, more) = rw eq (record {
  accounted = omega arith;
  fits = fits;
  numbered = (refl, omega arith, rw one_back (Numbered-take k t.base t.dynamic v.numbered));
})
  where
    one_back : t.base + 1 - 1 ≡ t.base
    one_back = omega arith
Inserts-IsValid e t ((t', s), false) v (inl same) = rw same v
Inserts-IsValid e t ((t', s), false) v (inr (big, eq)) =
    rw eq (record { accounted = refl; fits = omega arith; numbered = tt })

-- `insert` keeps a table valid, whatever the eviction check answers: `used` is the total of the
-- sizes, it is at most the capacity, and the entries are numbered from the base down without gaps.
pub insert-IsValid :
    {S : Type 0} (can_evict : EvictionCheck S) (e : DynamicEntry) (t : TableCommon) (s : S)
    → IsValid t
    → IsValid (insert can_evict e t s).0.0
insert-IsValid can_evict e t s v =
    Inserts-IsValid e t (insert can_evict e t s) v (insert-Inserts can_evict e t s v.accounted)
