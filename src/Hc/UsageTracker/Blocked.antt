-- ===== src/Hc/UsageTracker/Blocked.antt =====
-- How many streams wait for entries above `h`, over the operations of the tracker.
use minhq.Base.{
  ℕ, ◌+◌, ◌≤◌, ◌≡◌, refl, [], ◌∷◌, none, some, inl, inr, ltb, leb, ◌&&◌, ◌==◌, length, max, arith,
  false, Bool-cases, Option-cases, if◌then◌else◌, ==_iff, ap,
}
use minhq.Base.Int.{pos, pos_part}
use minhq.Hc.UsageTracker.{
  HeaderBlockUsage, Counts, StreamUsage, UsageTracker, stream_add, stream_ack, stream_max,
  new_block, block_add, find, put, delete, get, record_usage, replace_newest, fill_newest,
  after_ack, ack, cancel, count_blocked_streams,
}

-- 1 for a stream that waits.
abbrev pub waits : ℕ → StreamUsage → ℕ
waits h su = if ltb h (stream_max su) then 1 else 0

-- The blocks of a stream that the tracker knows.
abbrev pub held : ℕ → UsageTracker → StreamUsage
held id ut = elim (find id ut) [ none ↦ [] | some su ↦ su ]

pub count-put :
    (h id : ℕ) (su : StreamUsage) (ut : UsageTracker)
    → count_blocked_streams h (put id su ut) + waits h (held id ut)
      ≡ count_blocked_streams h ut + waits h su
unfolding count_blocked_streams put find stream_max
count-put h id su [] = ground arith
count-put h id su ((key, old) ∷ ut) =
    let ih = count-put h id su ut in
    elim (Bool-cases (key == id)) [
      | inl same ↦ rw (same, put, held, find, count_blocked_streams) (ground arith)
      | inr other ↦ rw (other, put, held, find, count_blocked_streams) (ground (arith, ih))
    ]

pub count-delete :
    (h id : ℕ) (ut : UsageTracker)
    → count_blocked_streams h (delete id ut) + waits h (held id ut) ≡ count_blocked_streams h ut
unfolding count_blocked_streams delete find stream_max
count-delete h id [] = ground arith
count-delete h id ((key, old) ∷ ut) =
    let ih = count-delete h id ut in
    elim (Bool-cases (key == id)) [
      | inl same ↦ rw (same, delete, held, find, count_blocked_streams) (ground arith)
      | inr other ↦ rw (other, delete, held, find, count_blocked_streams) (ground (arith, ih))
    ]

pub count_mono :
    (h h' : ℕ) (ut : UsageTracker)
    → h ≤ h'
    → count_blocked_streams h' ut ≤ count_blocked_streams h ut
unfolding count_blocked_streams
count_mono h h' [] le = omega arith
count_mono h h' ((key, su) ∷ ut) le = ground (arith, count_mono h h' ut le)

pub held-put : (id : ℕ) (su : StreamUsage) (ut : UsageTracker) → find id (put id su ut) ≡ some su
unfolding put find
held-put id su [] = rw ((==_iff id id).1 refl) refl
held-put id su ((key, old) ∷ ut) = elim (Bool-cases (key == id)) [
  | inl same ↦ rw (same, put, find, same) refl
  | inr other ↦ rw (other, put, find, other) (held-put id su ut)
]

-- What `get` makes is empty.
pub get-held :
    (h id : ℕ) (ut : UsageTracker)
    → ((get id ut).1 ≡ held id ut)
      × (find id (get id ut).0 ≡ some (held id ut))
      × (count_blocked_streams h (get id ut).0 ≡ count_blocked_streams h ut)
unfolding get stream_max
get-held h id ut = elim (Option-cases (find id ut)) [
  | inr (su, known) ↦ rw (known, get, held) (refl, known, refl)
  | inl unknown ↦
      let kept = count-put h id [] ut in
      rw (unknown, get, held) (refl, held-put id [] ut, omega (arith, rw (unknown, held) at kept))
]

stream_max-add : (su : StreamUsage) → stream_max (stream_add new_block su) ≡ stream_max su
unfolding stream_max stream_add
stream_max-add [] = omega arith
stream_max-add (z ∷ su) = ap (λ m. max z.largest m) (stream_max-add su)

stream_max-replace :
    (block : HeaderBlockUsage) (su : StreamUsage)
    → stream_max (replace_newest block su) ≤ max (stream_max su) block.largest
unfolding stream_max replace_newest
stream_max-replace block [] = omega arith
stream_max-replace block (z ∷ []) = omega arith
stream_max-replace block (z ∷ y ∷ su) = omega (arith, stream_max-replace block (y ∷ su))

-- Recording a block that has no uses yet blocks nothing.
pub record_usage-count :
    (h id largest_base : ℕ) (ut : UsageTracker) (su : StreamUsage)
    → find id ut ≡ some su
    → (count_blocked_streams h (record_usage largest_base id new_block ut)
        ≡ count_blocked_streams h ut)
      × (su' : StreamUsage) × (find id (record_usage largest_base id new_block ut) ≡ some su')
      × (stream_max su' ≡ stream_max su)
unfolding record_usage get
record_usage-count h id largest_base ut su known =
    let kept = count-put h id (stream_add new_block su) ut in
    elim (Bool-cases (ltb 0 largest_base)) [
      | inl refers ↦
          rw (known, record_usage, get, refers)
            (
              omega (arith, rw (known, held, stream_max-add su) at kept),
              stream_add new_block su,
              held-put id (stream_add new_block su) ut,
              stream_max-add su,
            )
      | inr plain ↦ rw (known, record_usage, get, plain) (refl, su, known, refl)
    ]

-- What a block comes to refer to blocks one stream at most, and none that is blocked already or when
-- the block is within the entries that are acknowledged.
pub fill_newest-count :
    (h id : ℕ) (block : HeaderBlockUsage) (ut : UsageTracker) (su : StreamUsage)
    → find id ut ≡ some su
    → count_blocked_streams h (fill_newest id block ut)
      ≤ count_blocked_streams h ut + (if ltb h block.largest && leb (stream_max su) h then 1 else 0)
unfolding fill_newest
fill_newest-count h id block ut su known =
    let kept = count-put h id (replace_newest block su) ut in
    let most = stream_max-replace block su in
    rw (known, fill_newest) (ground (arith, rw (known, held) at kept, most))

after_ack-count :
    (h id : ℕ) (ut : UsageTracker) (counts : Counts) (su : StreamUsage)
    → find id ut ≡ some su
    → count_blocked_streams h (after_ack id ut (stream_ack su counts)).0.0
        + (if ltb h (after_ack id ut (stream_ack su counts)).1.0
              && leb (after_ack id ut (stream_ack su counts)).1.1 h
            then 1
            else 0)
      ≡ count_blocked_streams h ut
unfolding after_ack stream_ack stream_max
after_ack-count h id ut counts [] known =
    let gone = count-delete h id ut in ground (arith, rw (known, held) at gone)
after_ack-count h id ut counts (z ∷ []) known =
    let gone = count-delete h id ut in ground (arith, rw (known, held) at gone)
after_ack-count h id ut counts (z ∷ y ∷ su) known =
    let kept = count-put h id (y ∷ su) ut in
    let more : (length (y ∷ su) == 0) ≡ false = ground arith in
    rw (more, after_ack) (ground (arith, rw (known, held) at kept))

-- A stream that waited for nothing but the block that is acknowledged waits no longer.
pub ack-count :
    (h id : ℕ) (ut : UsageTracker) (counts : Counts)
    → count_blocked_streams h (ack id ut counts).0.0
        + (if ltb h (ack id ut counts).1.0 && leb (ack id ut counts).1.1 h then 1 else 0)
      ≡ count_blocked_streams h ut
unfolding ack
ack-count h id ut counts = elim (Option-cases (find id ut)) [
  | inl unknown ↦ rw (unknown, ack) (ground arith)
  | inr (su, known) ↦ rw (known, ack) (after_ack-count h id ut counts su known)
]

pub cancel-count :
    (h id n : ℕ) (ut : UsageTracker) (counts : Counts)
    → (cancel id ut counts).1 ≡ pos n
    → count_blocked_streams h (cancel id ut counts).0.0 + (if ltb h n then 1 else 0)
      ≡ count_blocked_streams h ut
unfolding cancel
cancel-count h id n ut counts e = elim (Option-cases (find id ut)) [
  | inl unknown ↦ cc (rw (unknown, cancel) at e)
  | inr (su, known) ↦
      let gone = count-delete h id ut in
      let same : stream_max su ≡ n = ap pos_part (rw (known, cancel) at e) in
      rw (known, cancel) (rw (← same) (rw (known, held) at gone))
]

pub cancel-count-le :
    (h id : ℕ) (ut : UsageTracker) (counts : Counts)
    → count_blocked_streams h (cancel id ut counts).0.0 ≤ count_blocked_streams h ut
unfolding cancel
cancel-count-le h id ut counts = elim (Option-cases (find id ut)) [
  | inl unknown ↦ rw (unknown, cancel) (omega arith)
  | inr (su, known) ↦ rw (known, cancel) (omega (arith, count-delete h id ut))
]

pub block_add-largest :
    (l entry : ℕ) (block : HeaderBlockUsage) (counts : Counts)
    → entry ≤ l
    → block.largest ≤ l
    → (block_add entry (block, counts)).0.largest ≤ l
unfolding block_add
block_add-largest l entry block counts h b = ground arith
