-- ===== src/Hc/QpackEncoder/Inserting.antt =====
-- The account of unacknowledged entries over the encoder's insertions.
use minhq.Base.{
  ℕ, zero, suc, ◌+◌, ◌-◌, ◌^◌, ◌≤◌, ◌<◌, ◌≡◌, refl, sym, ap, ◌∙◌, inl, inr, ◌⊎◌, List, [], ◌∷◌, map,
  Bool, true, false, some, length, take, length-take, arith, ltb, ltb→lt, ltb_false→le, Bool-cases,
}
use minhq.Base.Words.{u64}
use minhq.Base.Names.{Name}
use minhq.Hc.Table.{DynamicEntry, TableCommon, EvictionCheck, size}
use minhq.Hc.Table.Numbering.{Numbered}
use minhq.Hc.Table.Evicting.{total, total-take-le}
use minhq.Hc.Table.Inserting.{Inserts}
use minhq.Hc.QpackTable.{QpackEncoderTable}
use minhq.Hc.QpackTable.Referencing.{take-take, IsTracked, insert_entry-IsTracked}
use minhq.Hc.QpackTable.Keeping.{insert_entry-Inserts}
use minhq.Hc.UsageTracker.{Counts}
use minhq.Hc.QpackEncoder.{QpackEncoder, with_uses, adding, insert_checked}
use minhq.Hc.QpackEncoder.Accounting.{IsAccounted, total-take_mono}

-- With other use counts, nothing else changes.
module _ (uses : Counts) where
  abbrev recount : DynamicEntry → DynamicEntry
  recount e = record e { usage_count = uses e.base }

  recount-total :
      (k : ℕ) (es : List DynamicEntry) → total (take k (map recount es)) ≡ total (take k es)
  unfolding total size
  recount-total zero es = refl
  recount-total (suc k) [] = refl
  recount-total (suc k) (e ∷ es) = omega (arith, recount-total k es)

  recount-total_all : (es : List DynamicEntry) → total (map recount es) ≡ total es
  unfolding total size
  recount-total_all [] = refl
  recount-total_all (e ∷ es) = omega (arith, recount-total_all es)

  recount-length : (es : List DynamicEntry) → length (map recount es) ≡ length es
  recount-length [] = refl
  recount-length (e ∷ es) = ap suc (recount-length es)

  recount-Numbered :
      (base : ℕ) (es : List DynamicEntry) → Numbered base es → Numbered base (map recount es)
  recount-Numbered base [] h = tt
  recount-Numbered base (e ∷ es) h = (h.0, h.1, recount-Numbered (base - 1) es h.2)

  with_uses-IsTracked : (qt : QpackEncoderTable) → IsTracked qt → IsTracked (with_uses uses qt)
  unfolding with_uses
  with_uses-IsTracked qt h = record {
    valid = record {
      accounted = h.valid.accounted ∙ sym (recount-total_all qt.common.dynamic);
      fits = h.valid.fits;
      numbered = recount-Numbered qt.common.base qt.common.dynamic h.valid.numbered;
    };
    tracked = (
      omega (arith, h.tracked.0, recount-length qt.common.dynamic),
      h.tracked.1 ∙ sym (recount-total qt.referenceable qt.common.dynamic),
      h.tracked.2,
    );
  }

-- The entries of the encoder's table are in order, and the account is right.
pub record IsSound (e : QpackEncoder) : Type 0 where
  pub tracked : IsTracked e.table
  pub account : IsAccounted e

-- The newest entries of the old table that are unacknowledged are all kept, since the new one goes in
-- only if it fits beside them.
account-inserted :
    (new : DynamicEntry) (t t' : TableCommon) (highest k : ℕ)
    → highest ≤ t.base
    → t.base - highest ≤ length t.dynamic
    → size new + total (take (t.base - highest) t.dynamic) ≤ t.capacity
    → (k ≡ length t.dynamic) ⊎ (t.capacity < total (take (suc k) t.dynamic) + size new)
    → t'.base ≡ t.base + 1
    → t'.dynamic ≡ record new { base = t.base + 1 } ∷ take k t.dynamic
    → (t'.base - highest ≤ length t'.dynamic)
      × (size new + total (take (t.base - highest) t.dynamic)
          ≡ total (take (t'.base - highest) t'.dynamic))
unfolding total size
account-inserted new t t' highest k behind present room more base entries =
    rw (base, entries, one_more, take-take u k t.dynamic kept)
      (omega (arith, length-take k t.dynamic, kept, present), refl)
  where
    u : ℕ
    u = t.base - highest

    one_more : t.base + 1 - highest ≡ suc u
    one_more = omega (arith, behind)

    kept : u ≤ k
    kept = elim more [
      | inl all ↦ omega (arith, all, present)
      | inr full ↦ elim (Bool-cases (ltb k u)) [
        | inr low ↦ ltb_false→le k u low
        | inl high ↦
            absurd
              (omega (arith, total-take_mono (suc k) u t.dynamic (ltb→lt k u high), full, room))
      ]
    ]

module _ (e : QpackEncoder) (new : DynamicEntry) (sound : IsSound e) where
  abbrev counted : QpackEncoderTable
  counted = with_uses e.uses e.table

  -- What the table's insertion comes to, for the encoder.
  inserted-IsSound :
      {S : Type 0} (qt : QpackEncoderTable) (s s' : S) (inserted : Bool)
      → size new + e.unacknowledged_size ≤ e.table.referenceable_limit
      → IsTracked qt
      → qt.referenceable_limit ≡ e.table.referenceable_limit
      → Inserts new counted.common ((qt.common, s'), inserted)
      → (e' : QpackEncoder) × (adding (size new) s e (some ((qt, s'), inserted))
          ≡ some ((e', s'), inserted))
        × IsSound e'
  unfolding adding with_uses
  inserted-IsSound qt s s' false room tracked limit ins = elim ins [
    | inr (big, emptied) ↦ absurd (omega (arith, big, room, sound.account.within))
    | inl same ↦
        let base : qt.common.base ≡ e.table.common.base = ap (λ (t : TableCommon). t.base) same in
        let capacity : qt.common.capacity ≡ e.table.common.capacity =
          ap (λ (t : TableCommon). t.capacity) same in
        let entries : qt.common.dynamic ≡ map (recount e.uses) e.table.common.dynamic =
          ap (λ (t : TableCommon). t.dynamic) same in
        (
          record e { table = qt },
          refl,
          record {
            tracked = tracked;
            account = record {
              valid = tracked.valid;
              within = omega (arith, limit, capacity, sound.account.within);
              small = rw capacity sound.account.small;
              behind = rw base sound.account.behind;
              present =
                  rw (base, entries, recount-length e.uses e.table.common.dynamic)
                    sound.account.present;
              sizes =
                  rw
                    (
                      base,
                      entries,
                      recount-total e.uses (e.table.common.base - e.highest_acknowledged)
                          e.table.common.dynamic,
                    )
                    sound.account.sizes;
            };
          },
        )
  ]
  inserted-IsSound qt s s' true room tracked limit (small, k, same, fits, more) =
      let u = e.table.common.base - e.highest_acknowledged in
      let base : qt.common.base ≡ e.table.common.base + 1 = ap (λ (t : TableCommon). t.base) same in
      let capacity : qt.common.capacity ≡ e.table.common.capacity =
        ap (λ (t : TableCommon). t.capacity) same in
      let sizes : e.unacknowledged_size
          ≡ total (take u (map (recount e.uses) e.table.common.dynamic)) =
        sound.account.sizes ∙ sym (recount-total e.uses u e.table.common.dynamic) in
      let (present, grown) =
        account-inserted new counted.common qt.common e.highest_acknowledged k sound.account.behind
          (rw (recount-length e.uses e.table.common.dynamic) sound.account.present)
          (omega (arith, sizes, room, sound.account.within)) more base
          (ap (λ (t : TableCommon). t.dynamic) same) in
      let added : u64 (e.unacknowledged_size + size new) ≡ size new + e.unacknowledged_size =
        omega (arith, room, sound.account.within, sound.account.small) in
      (
        record e { table = qt; unacknowledged_size = u64 (e.unacknowledged_size + size new) },
        refl,
        record {
          tracked = tracked;
          account = record {
            valid = tracked.valid;
            within = omega (arith, limit, capacity, sound.account.within);
            small = rw capacity sound.account.small;
            behind = omega (arith, base, sound.account.behind);
            present = present;
            sizes = added ∙ rw sizes grown;
          };
        },
      )

-- `insert` does not panic and keeps the encoder's tables and its account of unacknowledged
-- entries, whatever the eviction check answers, for a name and a value of fewer than 2^62 bytes:
-- the entries that the peer has not acknowledged are the newest of the table, none of them has
-- been evicted, and `unacknowledgedSize` is what they take up.
pub insert_checked-IsSound :
    {S : Type 0} (evict : EvictionCheck S) (name value : Name) (e : QpackEncoder) (s : S)
    → IsSound e
    → length name + length value < 2 ^ 62
    → (e' : QpackEncoder) × (s' : S) × (inserted : Bool) × (insert_checked evict name value e s
        ≡ some ((e', s'), inserted))
      × IsSound e'
unfolding insert_checked size
insert_checked-IsSound evict name value e s sound short =
    let new : DynamicEntry = record { name = name; value = value; base = 0; usage_count = 0 } in
    let tracked = with_uses-IsTracked e.uses e.table sound.tracked in
    let (qt, s', inserted, eq, kept, limit) =
      insert_entry-IsTracked evict name value (with_uses e.uses e.table) s tracked in
    elim (Bool-cases (ltb e.table.referenceable_limit (u64 (size new + e.unacknowledged_size)))) [
      | inl refused ↦ (e, s, false, rw (refused, insert_checked) refl, sound)
      | inr usable ↦
          let no_wrap : u64 (size new + e.unacknowledged_size) ≡ size new + e.unacknowledged_size =
            omega (
              arith,
              total-take-le (e.table.common.base - e.highest_acknowledged) e.table.common.dynamic,
              sound.account.sizes,
              sound.account.valid.accounted,
              sound.account.valid.fits,
              sound.account.small,
              short,
            ) in
          let (e', out, sound') =
            inserted-IsSound e new sound qt s s' inserted (rw no_wrap at (ltb_false→le _ _ usable))
              kept (unfold with_uses in limit)
              (insert_entry-Inserts evict name value (with_uses e.uses e.table) qt s s' inserted
                tracked.valid.accounted eq) in
          (e', s', inserted, rw (usable, insert_checked, eq) out, sound')
    ]
