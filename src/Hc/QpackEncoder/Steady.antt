-- ===== src/Hc/QpackEncoder/Steady.antt =====
-- What `insert` keeps of the encoder's blocked streams and of the eviction check's state.
use minhq.Base.{
  ℕ, ◌+◌, ◌≡◌, refl, ◌∙◌, inl, inr, Bool, true, false, Option, none, some, ltb, Bool-cases,
}
use minhq.Base.Words.{u64}
use minhq.Base.Names.{Name}
use minhq.Hc.Table.{DynamicEntry, EvictionCheck, size}
use minhq.Hc.Table.Steady.{KeptBy}
use minhq.Hc.QpackTable.{QpackEncoderTable}
use minhq.Hc.QpackTable.Steady.{IfAny, insert_entry-keeps}
use minhq.Hc.QpackEncoder.{QpackEncoder, insert_checked, adding, with_uses}

-- What an insertion leaves: the number of blocked streams and its limit, what is acknowledged, and the
-- usage of the streams.
pub record CountsStay (e e' : QpackEncoder) : Type 0 where
  pub blocked : e'.blocked_streams ≡ e.blocked_streams
  pub limit : e'.max_blocked_streams ≡ e.max_blocked_streams
  pub acknowledged : e'.highest_acknowledged ≡ e.highest_acknowledged
  pub usage : e'.usage ≡ e.usage

pub CountsStay-refl : (e : QpackEncoder) → CountsStay e e
CountsStay-refl e = record { blocked = refl; limit = refl; acknowledged = refl; usage = refl }

pub CountsStay-trans :
    (e e' e'' : QpackEncoder) → CountsStay e e' → CountsStay e' e'' → CountsStay e e''
CountsStay-trans e e' e'' c d = record {
  blocked = d.blocked ∙ c.blocked;
  limit = d.limit ∙ c.limit;
  acknowledged = d.acknowledged ∙ c.acknowledged;
  usage = d.usage ∙ c.usage;
}

module _ {S : Type 0} (can_evict : EvictionCheck S) (P : S → Type 0)
    (kept : KeptBy P can_evict) where
  adding-Holds :
      (s : S) (z : ℕ) (e : QpackEncoder) (o : Option ((QpackEncoderTable × S) × Bool))
      → IfAny (λ x. P x.0.1) o
      → IfAny (λ x. CountsStay e x.0.0 × P x.0.1) (adding z s e o)
  unfolding adding
  adding-Holds s z e none k = tt
  adding-Holds s z e (some ((qt, s'), false)) k =
      (record { blocked = refl; limit = refl; acknowledged = refl; usage = refl }, k)
  adding-Holds s z e (some ((qt, s'), true)) k =
      (record { blocked = refl; limit = refl; acknowledged = refl; usage = refl }, k)

  pub insert_checked-Holds :
      (s : S) (name value : Name) (e : QpackEncoder)
      → P s
      → IfAny (λ x. CountsStay e x.0.0 × P x.0.1) (insert_checked can_evict name value e s)
  unfolding insert_checked
  insert_checked-Holds s name value e k =
      let entry : DynamicEntry = record { name = name; value = value; base = 0; usage_count = 0 } in
      elim (Bool-cases
        (ltb e.table.referenceable_limit (u64 (size entry + e.unacknowledged_size)))) [
          | inl refused ↦ rw (refused, insert_checked) (CountsStay-refl e, k)
          | inr room ↦
              rw (room, insert_checked)
                (adding-Holds s (size entry) e _
                  (insert_entry-keeps can_evict P kept name value (with_uses e.uses e.table) s k))
        ]
