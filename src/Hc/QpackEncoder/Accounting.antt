-- ===== src/Hc/QpackEncoder/Accounting.antt =====
-- What the encoder knows of the entries that the peer has not acknowledged.
use minhq.Base.{
  ℕ, zero, suc, ◌+◌, ◌-◌, ◌^◌, ◌≤◌, ◌<◌, ◌≡◌, refl, ap, inl, inr, List, [], ◌∷◌, false, none, some,
  Error, length, take, arith, ltb, leb, ◌==◌, ◌⊎◌, le→ltb_false, le→leb_false, ltb→lt, ltb_false→le,
  ==_iff, Bool-cases,
}
use minhq.Base.Words.{u64}
use minhq.Base.Int.{pos}
use minhq.Hc.Table.{DynamicEntry, TableCommon, size}
use minhq.Hc.Table.Numbering.{get_dynamic-pos}
use minhq.Hc.UsageTracker.{count_blocked_streams}
use minhq.Hc.Table.Evicting.{total, total-take-suc, total-take-le, get_elem?_below}
use minhq.Hc.Table.Inserting.{IsValid}
use minhq.Hc.QpackEncoder.{
  QpackEncoder, reduce_unacknowledged, update_highest_acknowledged, with_unacknowledged,
  acknowledge_insert, Answers,
}

-- The unacknowledged entries are the newest of the table, all of them are still there, and
-- `unacknowledged_size` is what they take up.
pub record IsAccounted (e : QpackEncoder) : Type 0 where
  pub valid : IsValid e.table.common
  pub within : e.table.referenceable_limit ≤ e.table.common.capacity
  pub small : e.table.common.capacity < 2 ^ 63
  pub behind : e.highest_acknowledged ≤ e.table.common.base
  pub present : e.table.common.base - e.highest_acknowledged ≤ length e.table.common.dynamic
  pub sizes :
      e.unacknowledged_size
      ≡ total (take (e.table.common.base - e.highest_acknowledged) e.table.common.dynamic)

pub total-take_mono :
    (k l : ℕ) (es : List DynamicEntry) → k ≤ l → total (take k es) ≤ total (take l es)
unfolding total
total-take_mono zero l es h = omega arith
total-take_mono (suc k) zero es h = absurd (omega arith)
total-take_mono (suc k) (suc l) [] h = omega arith
total-take_mono (suc k) (suc l) (e ∷ es) h = omega (arith, total-take_mono k l es (omega arith))

-- `p` is where the loop stands in the table, `m` where it ends.
reduce-total :
    (t : TableCommon) (highest rounds i p m z : ℕ)
    → highest ≤ t.base
    → i + (t.base - highest) ≡ p
    → p + rounds ≡ m
    → m ≤ length t.dynamic
    → total t.dynamic < 2 ^ 64
    → z + total (take p t.dynamic)
      ≡ total (take m t.dynamic) + total (take (t.base - highest) t.dynamic)
    → z < 2 ^ 64
    → reduce_unacknowledged t highest rounds i z ≡ some (total (take (t.base - highest) t.dynamic))
unfolding reduce_unacknowledged
reduce-total t highest zero i p m z h at end fits room sum small =
    let same : p ≡ m = omega (arith, end) in ap some (omega (arith, rw same at sum))
reduce-total t highest (suc rounds) i p m z h at end fits room sum small =
    let (x, found) = get_elem?_below p t.dynamic (omega (arith, end, fits)) in
    let step = total-take-suc p t.dynamic x found in
    let rest = total-take_mono (suc p) m t.dynamic (omega (arith, end)) in
    let all = total-take-le (suc p) t.dynamic in
    let reduced : u64 (z + (2 ^ 64 - size x)) ≡ z - size x = omega (arith, step, rest, all, sum) in
    rw (get_dynamic-pos t i highest h, reduce_unacknowledged, at, found, reduced)
      (reduce-total t highest rounds (i + 1) (suc p) m (z - size x) h (omega (arith, at))
        (omega (arith, end)) fits room (omega (arith, step, rest, sum)) (omega arith))

-- Acknowledging entries that have been sent does not panic, and keeps the account.
pub update_highest_acknowledged-IsAccounted :
    (increment : ℕ) (e : QpackEncoder)
    → IsAccounted e
    → 0 < increment
    → increment + e.highest_acknowledged ≤ e.table.common.base
    → (e' : QpackEncoder) × (update_highest_acknowledged increment e ≡ some e')
      × IsAccounted e'
      × (e' ≡ record e {
        highest_acknowledged = increment + e.highest_acknowledged;
        unacknowledged_size = e'.unacknowledged_size;
      })
unfolding update_highest_acknowledged with_unacknowledged
update_highest_acknowledged-IsAccounted increment e a positive sent =
    let t = e.table.common in
    let highest = increment + e.highest_acknowledged in
    let d = t.base - highest in
    let m = t.base - e.highest_acknowledged in
    let some_entries : (increment == 0) ≡ false = ground arith in
    let in_table : ltb t.base highest ≡ false = le→ltb_false t.base highest sent in
    let room : total t.dynamic < 2 ^ 64 = omega (arith, a.valid.accounted, a.valid.fits, a.small) in
    let reduced =
      reduce-total t highest increment 0 d m e.unacknowledged_size sent (omega arith)
        (omega (arith, sent)) a.present room (omega (arith, a.sizes))
        (omega (arith, a.sizes, total-take-le m t.dynamic, room)) in
    (
      record e { highest_acknowledged = highest; unacknowledged_size = total (take d t.dynamic) },
      rw (some_entries, update_highest_acknowledged, in_table, reduced) refl,
      record {
        valid = a.valid;
        within = a.within;
        small = a.small;
        behind = sent;
        present = omega (arith, a.present);
        sizes = refl;
      },
      refl,
    )

-- Refused, for nothing or more than was sent; or carried out.
abbrev pub Acknowledges : ℕ → QpackEncoder → Answers → Type 0
Acknowledges v e r =
    (((v ≡ 0) ⊎ (e.table.common.base < e.highest_acknowledged + v))
      × (r ≡ some (e, some Error.index_error)))
    ⊎ ((0 < v)
        × (e.highest_acknowledged + v ≤ e.table.common.base)
        × (e' : QpackEncoder) × (r ≡ some (e', none))
        × IsAccounted e'
        × (e'.highest_acknowledged ≡ v + e.highest_acknowledged)
        × (e'.blocked_streams ≡ pos (count_blocked_streams (e.highest_acknowledged + v) e.usage))
        × (e'.table ≡ e.table)
        × (e'.usage ≡ e.usage))

-- `AcknowledgeInsert` never panics on an encoder whose account of unacknowledged entries is right
-- (they are the newest, none has been evicted, and `unacknowledgedSize` is what they take up), for
-- an increment whose sum with the acknowledged entries is below 2^63: it returns ErrIndexError and
-- changes nothing when nothing or more than was sent is acknowledged, and else counts the entries
-- and the blocked streams anew and keeps the account, the table and the usage of the streams.
pub acknowledge_insert-Acknowledges :
    (v : ℕ) (e : QpackEncoder)
    → IsAccounted e
    → e.highest_acknowledged + v < 2 ^ 63
    → Acknowledges v e (acknowledge_insert v e)
unfolding acknowledge_insert
acknowledge_insert-Acknowledges v e a an_int =
    let base = e.table.common.base in
    let sum = e.highest_acknowledged + v in
    let no_wrap : leb (2 ^ 63) sum ≡ false = le→leb_false (2 ^ 63) sum an_int in
    let an_int' : leb (2 ^ 63) v ≡ false = le→leb_false (2 ^ 63) v (omega arith) in
    elim (Bool-cases (v == 0)) [
      | inl nothing ↦ inl (inl ((==_iff v 0).0 nothing), rw (nothing, acknowledge_insert) refl)
      | inr something ↦ elim (Bool-cases (ltb base sum)) [
        | inl more ↦
            inl (
              inr (ltb→lt _ _ more),
              rw (something, acknowledge_insert, an_int', no_wrap, more) refl,
            )
        | inr sent ↦
            let counted : QpackEncoder = record e {
              blocked_streams = pos (count_blocked_streams sum e.usage);
            } in
            let (e', eq, kept, same) =
              update_highest_acknowledged-IsAccounted v counted
                (record {
                  valid = a.valid;
                  within = a.within;
                  small = a.small;
                  behind = a.behind;
                  present = a.present;
                  sizes = a.sizes;
                })
                (ground arith) (omega (arith, ltb_false→le _ _ sent)) in
            inr (
              ground arith,
              ltb_false→le _ _ sent,
              e',
              rw (something, acknowledge_insert, an_int', no_wrap, sent, eq) refl,
              kept,
              ap (λ (x : QpackEncoder). x.highest_acknowledged) same,
              ap (λ (x : QpackEncoder). x.blocked_streams) same,
              ap (λ (x : QpackEncoder). x.table) same,
              ap (λ (x : QpackEncoder). x.usage) same,
            )
      ]
    ]
