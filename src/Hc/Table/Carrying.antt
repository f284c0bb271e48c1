-- ===== src/Hc/Table/Carrying.antt =====
-- What an eviction check keeps of its own state over an insertion.
use minhq.Base.{
  ℕ, zero, suc, ◌-◌, ◌≤◌, ◌≡◌, refl, inl, inr, List, [], ◌∷◌, Bool, true, false, Option, none, some,
  length, take, get_elem?, arith, Bool-cases, ltb, take_all, if◌then◌else◌,
}
use minhq.Hc.Table.{
  DynamicEntry, TableCommon, EvictionCheck, size, evict_loop, evict_to, cut, clear, push_front,
  insert,
}
use minhq.Hc.Table.Evicting.{total, get_elem?_below, Fits, evict_loop-Fits}
use minhq.Hc.Table.Inserting.{stored}

total_zero : (k : ℕ) (es : List DynamicEntry) → k ≤ length es → total (take k es) ≤ 0 → k ≡ 0
unfolding total size
total_zero zero es h z = refl
total_zero (suc k) [] h z = absurd (omega arith)
total_zero (suc k) (e ∷ es) h z = absurd (omega arith)

-- `P l s`: the state `s` goes with the first `l` entries. An entry that may go takes its part with it.
module _ {S : Type 0} (can_evict : EvictionCheck S) (P : ℕ → S → Type 0)
    (es : List DynamicEntry) where
  abbrev pub Sheds : Type 0
  Sheds =
      (l : ℕ) (s : S) (x : DynamicEntry)
      → get_elem? es l ≡ some x
      → P (suc l) s
      → P (if (can_evict s x).1 then l else suc l) (can_evict s x).0

  abbrev pub Grows : Type 0
  Grows = (l l' : ℕ) (s : S) → l ≤ l' → P l s → P l' s

  abbrev Keeps : ℕ → S × Option (ℕ × ℕ) → Type 0
  Keeps l (s, none) = P l s
  Keeps l (s, some (k, used)) = P k s

  Keeps-suc : Grows → (l : ℕ) (r : S × Option (ℕ × ℕ)) → Keeps l r → Keeps (suc l) r
  Keeps-suc grows l (s, none) h = grows l (suc l) s (omega arith) h
  Keeps-suc grows l (s, some (k, used)) h = h

  evict_loop-Keeps :
      Sheds
      → Grows
      → (reduced l used : ℕ) (s : S) → l ≤ length es
      → P l s
      → Keeps l (evict_loop can_evict es reduced l used s)
  unfolding evict_loop
  evict_loop-Keeps sheds grows reduced zero used s h p = p
  evict_loop-Keeps sheds grows reduced (suc l) used s h p = elim (Bool-cases (ltb reduced used)) [
    | inr small ↦ rw (small, evict_loop) p
    | inl big ↦
        let (x, at) = get_elem?_below l es (omega arith) in
        let shed = sheds l s x at p in
        elim (Bool-cases (can_evict s x).1) [
          | inr refused ↦ rw (big, evict_loop, at, refused) (rw refused at shed)
          | inl allowed ↦
              rw (big, evict_loop, at, allowed)
                (Keeps-suc grows l _ (
                  evict_loop-Keeps sheds grows reduced l (used - size x) (can_evict s x).0
                    (omega arith) (rw allowed at shed)))
        ]
  ]

module _ {S : Type 0} (can_evict : EvictionCheck S) (P : ℕ → S → Type 0) (t : TableCommon) where
  abbrev Carries : ℕ → (TableCommon × S) × Bool → Type 0
  Carries reduced ((t', s), false) = (t' ≡ t) × P (length t.dynamic) s
  Carries reduced ((t', s), true) =
      (k : ℕ) × (k ≤ length t.dynamic)
      × (t' ≡ record t { dynamic = take k t.dynamic; used = total (take k t.dynamic) })
      × (total (take k t.dynamic) ≤ reduced)
      × P k s

  cut-Carries :
      (reduced : ℕ) (r : S × Option (ℕ × ℕ))
      → Fits t.dynamic reduced (length t.dynamic) r.1
      → Keeps can_evict P t.dynamic (length t.dynamic) r
      → Carries reduced (cut can_evict t r)
  unfolding cut
  cut-Carries reduced (s, none) f h = (refl, h)
  cut-Carries reduced (s, some (k, used)) (le, eq, small, more) h =
      (k, le, rw eq refl, omega arith, h)

  evict_to-Carries :
      Sheds can_evict P t.dynamic
      → Grows can_evict P t.dynamic
      → (reduced : ℕ) (s : S) → t.used ≡ total t.dynamic
      → P (length t.dynamic) s
      → Carries reduced (evict_to can_evict reduced t s)
  unfolding evict_to
  evict_to-Carries sheds grows reduced s e p =
      cut-Carries reduced _
        (evict_loop-Fits can_evict t.dynamic reduced (length t.dynamic) t.used s (omega arith)
          (rw (take_all t.dynamic (length t.dynamic) (omega arith)) e))
        (evict_loop-Keeps can_evict P t.dynamic sheds grows reduced (length t.dynamic) t.used s
          (omega arith) p)

  -- The new entry stands in front of `k` old ones, with which the state goes.
  abbrev pub InsertCarries : DynamicEntry → (TableCommon × S) × Bool → Type 0
  InsertCarries e ((t', s), true) =
      (k : ℕ) × (k ≤ length t.dynamic) × (t'.dynamic ≡ stored t e ∷ take k t.dynamic) × P k s
  InsertCarries e ((t', s), false) =
      (k : ℕ) × (k ≤ length t.dynamic) × (t'.dynamic ≡ take k t.dynamic) × P k s

  unchanged :
      (e : DynamicEntry) (t' : TableCommon) (s : S)
      → t' ≡ t
      → P (length t.dynamic) s
      → InsertCarries e ((t', s), false)
  unchanged e t' s same h = (
    length t.dynamic,
    omega arith,
    rw (same, take_all t.dynamic (length t.dynamic) (omega arith)) refl,
    h,
  )

  clear-Carries :
      (e : DynamicEntry) (r : (TableCommon × S) × Bool)
      → Carries 0 r
      → InsertCarries e (clear can_evict r)
  unfolding clear
  clear-Carries e ((t', s), false) (same, h) = unchanged e t' s same h
  clear-Carries e ((t', s), true) (k, le, eq, fits, h) =
      (0, omega arith, refl, rw (total_zero k t.dynamic le fits) at h)

  push_front-Carries :
      (e : DynamicEntry) (reduced : ℕ) (r : (TableCommon × S) × Bool)
      → Carries reduced r
      → InsertCarries e (push_front can_evict e r)
  unfolding push_front
  push_front-Carries e reduced ((t', s), false) (same, h) = unchanged e t' s same h
  push_front-Carries e reduced ((t', s), true) (k, le, eq, fits, h) = (k, le, rw eq refl, h)

  -- The state goes with the entries behind an insertion, if each eviction keeps it that way.
  pub insert-Carries :
      Sheds can_evict P t.dynamic
      → Grows can_evict P t.dynamic
      → (e : DynamicEntry) (s : S) → t.used ≡ total t.dynamic
      → P (length t.dynamic) s
      → InsertCarries e (insert can_evict e t s)
  unfolding insert
  insert-Carries sheds grows e s h p = elim (Bool-cases (ltb t.capacity (size e))) [
    | inl big ↦ rw big (clear-Carries e _ (evict_to-Carries sheds grows 0 s h p))
    | inr small ↦
        rw small
          (push_front-Carries e _ _ (evict_to-Carries sheds grows (t.capacity - size e) s h p))
  ]
