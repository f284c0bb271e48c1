-- ===== src/Hc/Table/Capacity.antt =====
-- What `SetCapacity` keeps of a table.
use minhq.Base.{
  ℕ, zero, suc, ◌*◌, ◌-◌, ◌≤◌, ◌<◌, ◌≡◌, refl, inl, inr, List, [], ◌∷◌, Bool, true, false, some,
  Bool-cases, ltb, length, get_elem?, arith,
}
use minhq.Hc.Table.{
  DynamicEntry, TableCommon, no_check, size, evict_loop, evict_to, cut, set_capacity,
}
use minhq.Hc.Table.Numbering.{Numbered-take}
use minhq.Hc.Table.Evicting.{total, get_elem?_below, Evicts, evict_to-Evicts}
use minhq.Hc.Table.Inserting.{IsValid}

-- Every entry takes up at least 32 bytes.
pub total-length : (es : List DynamicEntry) → 32 * length es ≤ total es
unfolding total size
total-length [] = omega arith
total-length (e ∷ es) = omega (arith, total-length es)

pub get_elem?-below :
    (i : ℕ) (es : List DynamicEntry) (e : DynamicEntry) → get_elem? es i ≡ some e → i < length es
get_elem?-below i [] e at = cc
get_elem?-below zero (x ∷ es) e at = omega arith
get_elem?-below (suc i) (x ∷ es) e at = omega (arith, get_elem?-below i es e at)

-- Without a check every entry may go.
no_check-evicts :
    (es : List DynamicEntry) (reduced l used : ℕ)
    → l ≤ length es
    → (k : ℕ × ℕ) × ((evict_loop no_check es reduced l used tt).1 ≡ some k)
unfolding evict_loop
no_check-evicts es reduced zero used h = ((0, used), refl)
no_check-evicts es reduced (suc l) used h = elim (Bool-cases (ltb reduced used)) [
  | inl big ↦
      let (x, at) = get_elem?_below l es (omega arith) in
      rw (big, at, evict_loop) (no_check-evicts es reduced l (used - size x) (omega arith))
  | inr small ↦ rw (small, evict_loop) ((suc l, used), refl)
]

evict_to-succeeds : (c : ℕ) (t : TableCommon) → (evict_to no_check c t tt).1 ≡ true
unfolding evict_to cut
evict_to-succeeds c t =
    let (k, e) = no_check-evicts t.dynamic c (length t.dynamic) t.used (omega arith) in rw e refl

Evicts-IsValid :
    (c : ℕ) (t : TableCommon) (r : (TableCommon × Unit {0}) × Bool)
    → IsValid t
    → r.1 ≡ true
    → Evicts no_check c t r
    → IsValid (record (r.0.0) { capacity = c })
Evicts-IsValid c t ((t', s), false) v e h = cc
Evicts-IsValid c t ((t', s), true) v e (k, eq, fits, more) = rw eq (record {
  accounted = refl;
  fits = fits;
  numbered = Numbered-take k t.base t.dynamic v.numbered;
})

pub set_capacity-IsValid : (c : ℕ) (t : TableCommon) → IsValid t → IsValid (set_capacity c t)
unfolding set_capacity
set_capacity-IsValid c t v =
    Evicts-IsValid c t (evict_to no_check c t tt) v (evict_to-succeeds c t)
      (evict_to-Evicts no_check c t tt v.accounted)

pub set_capacity-capacity : (c : ℕ) (t : TableCommon) → (set_capacity c t).capacity ≡ c
unfolding set_capacity
set_capacity-capacity c t = refl
