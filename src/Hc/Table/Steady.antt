-- ===== src/Hc/Table/Steady.antt =====
-- The state of an eviction check: what every call of the check keeps of it, an insertion keeps.
use minhq.Base.{
  ℕ, zero, suc, ◌-◌, List, Bool, true, false, Option, none, some, ltb, get_elem?, length, inl, inr,
  Bool-cases, Option-cases,
}
use minhq.Hc.Table.{
  DynamicEntry, TableCommon, EvictionCheck, size, evict_loop, evict_to, cut, clear, push_front,
  insert,
}

abbrev pub KeptBy : {S : Type 0} → (S → Type 0) → EvictionCheck S → Type 0
KeptBy {S} P can_evict = (s : S) (e : DynamicEntry) → P s → P (can_evict s e).0

module _ {S : Type 0} (can_evict : EvictionCheck S) (P : S → Type 0)
    (kept : KeptBy P can_evict) where
  evict_loop-keeps :
      (es : List DynamicEntry) (reduced l used : ℕ) (s : S)
      → P s
      → P (evict_loop can_evict es reduced l used s).0
  unfolding evict_loop
  evict_loop-keeps es reduced zero used s p = p
  evict_loop-keeps es reduced (suc l) used s p = elim (Bool-cases (ltb reduced used)) [
    | inr small ↦ rw (small, evict_loop) p
    | inl big ↦ elim (Option-cases (get_elem? es l)) [
      | inl out ↦ rw (big, evict_loop, out) p
      | inr (x, at) ↦ elim (Bool-cases (can_evict s x).1) [
        | inr refused ↦ rw (big, evict_loop, at, refused) (kept s x p)
        | inl allowed ↦
            rw (big, evict_loop, at, allowed)
              (evict_loop-keeps es reduced l (used - size x) (can_evict s x).0 (kept s x p))
      ]
    ]
  ]

  cut-keeps : (t : TableCommon) (r : S × Option (ℕ × ℕ)) → P r.0 → P (cut can_evict t r).0.1
  unfolding cut
  cut-keeps t (s, none) p = p
  cut-keeps t (s, some (l, used)) p = p

  evict_to-keeps :
      (reduced : ℕ) (t : TableCommon) (s : S) → P s → P (evict_to can_evict reduced t s).0.1
  unfolding evict_to
  evict_to-keeps reduced t s p =
      cut-keeps t _ (evict_loop-keeps t.dynamic reduced (length t.dynamic) t.used s p)

  clear-keeps : (r : (TableCommon × S) × Bool) → P r.0.1 → P (clear can_evict r).0.1
  unfolding clear
  clear-keeps ((t, s), true) p = p
  clear-keeps ((t, s), false) p = p

  push_front-keeps :
      (e : DynamicEntry) (r : (TableCommon × S) × Bool) → P r.0.1 → P (push_front can_evict e r).0.1
  unfolding push_front
  push_front-keeps e ((t, s), true) p = p
  push_front-keeps e ((t, s), false) p = p

  pub insert-keeps :
      (e : DynamicEntry) (t : TableCommon) (s : S) → P s → P (insert can_evict e t s).0.1
  unfolding insert
  insert-keeps e t s p = elim (Bool-cases (ltb t.capacity (size e))) [
    | inl above ↦ rw (above, insert) (clear-keeps _ (evict_to-keeps 0 t s p))
    | inr fits ↦
        rw (fits, insert) (push_front-keeps e _ (evict_to-keeps (t.capacity - size e) t s p))
  ]
