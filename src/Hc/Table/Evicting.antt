-- ===== src/Hc/Table/Evicting.antt =====
-- Eviction goes from the oldest entry on, and no further than it has to.
use minhq.Base.{
  ℕ, zero, suc, ◌+◌, ◌-◌, ◌≤◌, ◌<◌, ◌≡◌, refl, ◌⊎◌, inl, inr, List, [], ◌∷◌, Bool, true, false,
  Option, none, some, ltb, length, get_elem?, take, take_all, arith, Bool-cases, ltb→lt,
  ltb_false→le,
}
use minhq.Hc.Table.{DynamicEntry, TableCommon, EvictionCheck, size, evict_loop, evict_to, cut}

-- The bytes that entries take up in a table.
unfoldable pub total : List DynamicEntry → ℕ
total [] = 0
total (e ∷ es) = size e + total es

pub total-take-suc :
    (l : ℕ) (es : List DynamicEntry) (e : DynamicEntry)
    → get_elem? es l ≡ some e
    → total (take (suc l) es) ≡ total (take l es) + size e
unfolding total
total-take-suc zero [] e h = cc
total-take-suc (suc l) [] e h = cc
total-take-suc zero (x ∷ es) e h = ground arith
total-take-suc (suc l) (x ∷ es) e h = omega (arith, total-take-suc l es e h)

pub total-take-le : (l : ℕ) (es : List DynamicEntry) → total (take l es) ≤ total es
unfolding total
total-take-le zero es = omega arith
total-take-le (suc l) [] = omega arith
total-take-le (suc l) (x ∷ es) = omega (arith, total-take-le l es)

pub get_elem?_below :
    (l : ℕ) (es : List DynamicEntry)
    → l < length es
    → (e : DynamicEntry) × (get_elem? es l ≡ some e)
get_elem?_below l [] h = absurd (omega arith)
get_elem?_below zero (x ∷ es) h = (x, refl)
get_elem?_below (suc l) (x ∷ es) h = get_elem?_below l es (omega arith)

-- What is kept of `l` entries fits, and one entry more would not.
abbrev pub Fits : List DynamicEntry → ℕ → ℕ → Option (ℕ × ℕ) → Type 0
Fits es reduced l none = Unit {0}
Fits es reduced l (some (k, used)) =
    (k ≤ l)
    × (used ≡ total (take k es))
    × (used ≤ reduced)
    × ((k ≡ l) ⊎ (reduced < total (take (suc k) es)))

Fits-suc :
    (es : List DynamicEntry) (reduced l : ℕ) (r : Option (ℕ × ℕ))
    → reduced < total (take (suc l) es)
    → Fits es reduced l r
    → Fits es reduced (suc l) r
Fits-suc es reduced l none big f = tt
Fits-suc es reduced l (some (k, used)) big (le, eq, small, inr more) =
    (omega arith, eq, small, inr more)
Fits-suc es reduced l (some (k, used)) big (le, eq, small, inl same) =
    (omega arith, eq, small, inr (rw same big))

module _ {S : Type 0} (can_evict : EvictionCheck S) where
  pub evict_loop-Fits :
      (es : List DynamicEntry) (reduced l used : ℕ) (s : S)
      → l ≤ length es
      → used ≡ total (take l es)
      → Fits es reduced l (evict_loop can_evict es reduced l used s).1
  unfolding evict_loop
  evict_loop-Fits es reduced zero used s h e =
      (omega arith, e, unfold total in omega arith, inl refl)
  evict_loop-Fits es reduced (suc l) used s h e = elim (Bool-cases (ltb reduced used)) [
    | inr small ↦ rw (small, evict_loop) (omega arith, e, ltb_false→le _ _ small, inl refl)
    | inl big ↦
        let (x, at) = get_elem?_below l es (omega arith) in
        let s' = (can_evict s x).0 in
        elim (Bool-cases (can_evict s x).1) [
          | inr refused ↦ rw (big, at, refused, evict_loop) tt
          | inl allowed ↦
              rw (big, at, allowed, evict_loop)
                (Fits-suc es reduced l _ (omega (arith, ltb→lt _ _ big)) (
                  evict_loop-Fits es reduced l (used - size x) s' (omega arith)
                    (omega (arith, total-take-suc l es x at))))
        ]
  ]

  -- `evictTo` leaves the table alone, or keeps its newest entries, as many as fit in `reduced`.
  abbrev pub Evicts : ℕ → TableCommon → (TableCommon × S) × Bool → Type 0
  Evicts reduced t ((t', s), false) = t' ≡ t
  Evicts reduced t ((t', s), true) =
      (k : ℕ) × (t' ≡ record t { dynamic = take k t.dynamic; used = total (take k t.dynamic) })
      × (total (take k t.dynamic) ≤ reduced)
      × ((k ≡ length t.dynamic) ⊎ (reduced < total (take (suc k) t.dynamic)))

  cut-Evicts :
      (reduced : ℕ) (t : TableCommon) (r : S × Option (ℕ × ℕ))
      → Fits t.dynamic reduced (length t.dynamic) r.1
      → Evicts reduced t (cut can_evict t r)
  unfolding cut
  cut-Evicts reduced t (s, none) f = refl
  cut-Evicts reduced t (s, some (k, used)) (le, eq, small, more) =
      (k, rw eq refl, omega arith, more)

  pub evict_to-Evicts :
      (reduced : ℕ) (t : TableCommon) (s : S)
      → t.used ≡ total t.dynamic
      → Evicts reduced t (evict_to can_evict reduced t s)
  unfolding evict_to
  evict_to-Evicts reduced t s e = cut-Evicts reduced t _ (
      evict_loop-Fits t.dynamic reduced (length t.dynamic) t.used s (omega arith)
        (rw (take_all t.dynamic (length t.dynamic) (omega arith)) e))
