-- ===== src/Hc/QpackTable/Referencing.antt =====
-- The encoder's account of the entries that it may refer to, over insertions.
use minhq.Base.{
  ℕ, zero, suc, ◌+◌, ◌-◌, ◌≤◌, ◌<◌, ◌≡◌, refl, ap, ◌⊎◌, inl, inr, List, [], ◌∷◌, Bool, true, false,
  Option, some, ltb, length, get_elem?, take, length-take, arith, Bool-cases, ltb→lt, ltb_false→le,
  le→ltb_false,
}
use minhq.Base.Names.{Name}
use minhq.Hc.Table.{DynamicEntry, TableCommon, EvictionCheck, size}
use minhq.Hc.Table.Evicting.{total, total-take-suc, get_elem?_below}
use minhq.Hc.Table.Inserting.{IsValid, insert-IsValid}
use minhq.Hc.Table.Carrying.{Sheds, Grows, InsertCarries, insert-Carries}
use minhq.Hc.Table.Numbering.{Numbered, get_elem?-base}
use minhq.Hc.QpackTable.{
  QpackEncoderTable, shrink, added, removed, evict_wrapper, insert_entry, after_insert,
  with_referenceable,
}

bound :
    (i n : ℕ) (es : List DynamicEntry) (limit : ℕ)
    → (n ≡ i) ⊎ (limit < total (take (suc n) es))
    → limit < total (take (suc i) es)
    → (n ≡ suc i) ⊎ (limit < total (take (suc n) es))
bound i n es limit (inl same) big = inr (rw same big)
bound i n es limit (inr more) big = inr more

-- The loop of `added`, from the size of the first `i` entries of a table that has as many, never
-- leaves the table and goes down to the most of these entries that fit in the limit, with their
-- size.
pub shrink-Tracks :
    (es : List DynamicEntry) (limit i z : ℕ)
    → i ≤ length es
    → z ≡ total (take i es)
    → (n : ℕ) × (shrink es limit i z ≡ some (n, total (take n es)))
      × (n ≤ i)
      × (total (take n es) ≤ limit)
      × ((n ≡ i) ⊎ (limit < total (take (suc n) es)))
unfolding shrink total
shrink-Tracks es limit zero z h e =
    (zero, rw (e, le→ltb_false limit 0 (omega arith)) refl, omega arith, omega arith, inl refl)
shrink-Tracks es limit (suc i) z h e = elim (Bool-cases (ltb limit z)) [
  | inr small ↦ (
    suc i,
    rw (small, shrink) (ap (λ x. some (suc i, x)) e),
    omega arith,
    omega (arith, e, ltb_false→le _ _ small),
    inl refl,
  )
  | inl big ↦
      let (x, at) = get_elem?_below i es (omega arith) in
      let (n, eq, le, fits, most) =
        shrink-Tracks es limit i (z - size x) (omega arith)
          (omega (arith, total-take-suc i es x at)) in
      (
        n,
        rw (big, shrink, at) eq,
        omega arith,
        fits,
        bound i n es limit most (omega (arith, e, ltb→lt _ _ big)),
      )
]

-- The counters describe the first entries of a list, no more than `l` of them, within the limit.
abbrev pub Tracks : List DynamicEntry → ℕ → ℕ → ℕ × ℕ → Type 0
Tracks es limit l (r, z) = (r ≤ l) × (z ≡ total (take r es)) × (z ≤ limit)

removed-Tracks :
    (es : List DynamicEntry) (limit base l : ℕ) (x : DynamicEntry) (c : ℕ × ℕ)
    → Numbered base es
    → get_elem? es l ≡ some x
    → Tracks es limit (suc l) c
    → Tracks es limit l (removed base x c)
unfolding removed
removed-Tracks es limit base l x (r, z) num at (le, eq, small) =
    elim (Bool-cases (ltb (base - x.base) r)) [
      | inr out ↦
          rw (out, removed)
            (omega (arith, (get_elem?-base l base es x num at).0, ltb_false→le _ _ out), eq, small)
      | inl within ↦
          let last : r ≡ suc l =
            omega (arith, (get_elem?-base l base es x num at).0, ltb→lt _ _ within, le) in
          let back : r - 1 ≡ l = omega arith in
          rw (within, removed, back)
            (omega arith, omega (arith, total-take-suc l es x at, rw last at eq), omega arith)
    ]

-- The encoder's table is valid, and its counters describe its first entries.
pub record IsTracked (qt : QpackEncoderTable) : Type 0 where
  pub valid : IsValid qt.common
  pub tracked :
      Tracks qt.common.dynamic qt.referenceable_limit
        (length qt.common.dynamic)
        (qt.referenceable, qt.referenceable_size)

pub take-take : {A : Type 0} (n k : ℕ) (xs : List A) → n ≤ k → take n (take k xs) ≡ take n xs
take-take zero k xs h = refl
take-take (suc n) zero xs h = absurd (omega arith)
take-take (suc n) (suc k) [] h = refl
take-take (suc n) (suc k) (x ∷ xs) h = ap (◌∷◌ x) (take-take n k xs (omega arith))

front-total :
    (e : DynamicEntry) (b n k : ℕ) (es : List DynamicEntry)
    → n ≤ k
    → total (take (n + 1) (record e { base = b } ∷ take k es)) ≡ total (take n es) + size e
unfolding total size
front-total e b n k es h = rw one_more (rw (take-take n k es h) (omega arith))
  where
    one_more : n + 1 ≡ suc n
    one_more = omega arith

module _ {S : Type 0} (wrapped : EvictionCheck S) (qt : QpackEncoderTable) where
  abbrev Goes : ℕ → S × (ℕ × ℕ) → Type 0
  Goes l (s, c) = Tracks qt.common.dynamic qt.referenceable_limit l c

  wrapper-Sheds : IsTracked qt → Sheds (evict_wrapper wrapped qt.common.base) Goes qt.common.dynamic
  unfolding evict_wrapper
  wrapper-Sheds h l (s, c) x at p = elim (Bool-cases (wrapped s x).1) [
    | inr refused ↦ rw (refused, evict_wrapper) p
    | inl allowed ↦ elim (Bool-cases (ltb 0 x.usage_count)) [
      | inl used ↦ rw (allowed, used, evict_wrapper) p
      | inr free ↦
          rw (allowed, free, evict_wrapper)
            (removed-Tracks qt.common.dynamic qt.referenceable_limit qt.common.base l x c
              h.valid.numbered at p)
    ]
  ]

  wrapper-Grows : Grows (evict_wrapper wrapped qt.common.base) Goes qt.common.dynamic
  wrapper-Grows l l' (s, c) le (small, eq, fits) = (omega arith, eq, fits)

  -- The result of an insertion is not a panic, and the table is tracked with the same limit.
  abbrev pub Kept : Option ((QpackEncoderTable × S) × Bool) → Type 0
  Kept r =
      (qt' : QpackEncoderTable) × (s : S) × (inserted : Bool) × (r ≡ some ((qt', s), inserted))
      × IsTracked qt'
      × (qt'.referenceable_limit ≡ qt.referenceable_limit)

  after_insert-Kept :
      (e : DynamicEntry) (r : (TableCommon × (S × (ℕ × ℕ))) × Bool)
      → IsValid r.0.0
      → InsertCarries (evict_wrapper wrapped qt.common.base) Goes qt.common e r
      → Kept (after_insert e qt r)
  unfolding after_insert added with_referenceable
  after_insert-Kept e ((t, (s, (n, z))), false) v (k, le, eq, (small, sum, fits)) = (
    _,
    s,
    false,
    refl,
    record {
      valid = v;
      tracked = rw eq (
        omega (arith, length-take k qt.common.dynamic),
        rw (take-take n k qt.common.dynamic small) sum,
        fits,
      );
    },
    refl,
  )
  after_insert-Kept e ((t, (s, (n, z))), true) v (k, le, eq, (small, sum, fits)) =
      let sizes : z + size e ≡ total (take (n + 1) t.dynamic) =
        rw (eq, front-total e (qt.common.base + 1) n k qt.common.dynamic small)
          (omega (arith, sum)) in
      let room : n + 1 ≤ length t.dynamic =
        rw eq (omega (arith, length-take k qt.common.dynamic)) in
      let (m, is, le', fits', most) =
        shrink-Tracks t.dynamic qt.referenceable_limit (n + 1) (z + size e) room sizes in
      (
        _,
        s,
        true,
        rw (is, added, with_referenceable) refl,
        record { valid = v; tracked = (omega arith, refl, fits') },
        refl,
      )

-- `QpackEncoderTable.Insert` does not panic and keeps the encoder table's account and its limit,
-- whatever the eviction check answers and whether or not the entry goes in: the referenceable
-- entries are the newest of the table, their sizes add up to the recorded size, which is within
-- the limit, and the table stays valid.
pub insert_entry-IsTracked :
    {S : Type 0} (evict : EvictionCheck S) (name value : Name) (qt : QpackEncoderTable) (s : S)
    → IsTracked qt
    → Kept evict qt (insert_entry evict name value qt s)
unfolding insert_entry
insert_entry-IsTracked {S} evict name value qt s h =
    after_insert-Kept evict qt entry _
      (insert-IsValid (evict_wrapper evict qt.common.base) entry qt.common state h.valid)
      (insert-Carries (evict_wrapper evict qt.common.base) (Goes evict qt) qt.common
        (wrapper-Sheds evict qt h) (wrapper-Grows evict qt) entry state h.valid.accounted h.tracked)
  where
    entry : DynamicEntry
    entry = record { name = name; value = value; base = 0; usage_count = 0 }

    state : S × (ℕ × ℕ)
    state = (s, (qt.referenceable, qt.referenceable_size))
