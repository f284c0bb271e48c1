-- ===== src/Hc/UsageTracker/Counting.antt =====
-- An entry's use count is the number of times that the blocks in the tracker refer to it.
use minhq.Base.{
  ltb, ◌⊎◌, lt→ltb, ℕ, suc, ◌+◌, ◌-◌, ◌^◌, ◌≤◌, ◌<◌, ◌≡◌, refl, sym, ap, ◌∙◌, inl, inr, List, [],
  ◌∷◌, ◌++◌, Option, none, some, false, ◌==◌, ==_iff, length, arith, Bool-cases, Option-cases,
  if◌then◌else◌,
}
use minhq.Base.Words.{u64}
use mathlib.Core.List.{append_assoc, append-nil}
use minhq.Hc.UsageTracker.{
  Counts, change, HeaderBlockUsage, release, StreamUsage, stream_ack, stream_cancel, stream_add,
  UsageTracker, block_add, add_uses, new_block, find, put, delete, get, record_usage, ack,
  after_ack, cancel,
}

-- How often the blocks of a list, and of a tracker, refer to an entry.
unfoldable pub occurrences : ℕ → List ℕ → ℕ
occurrences b [] = 0
occurrences b (e ∷ es) = (if b == e then 1 else 0) + occurrences b es

unfoldable pub stream_uses : ℕ → StreamUsage → ℕ
stream_uses b [] = 0
stream_uses b (z ∷ su) = occurrences b z.entries + stream_uses b su

unfoldable pub uses : ℕ → UsageTracker → ℕ
uses b [] = 0
uses b ((key, su) ∷ ut) = stream_uses b su + uses b ut

-- The counts are those of the tracker, and none has wrapped.
abbrev pub Counted : Counts → UsageTracker → Type 0
Counted counts ut = (b : ℕ) → (counts b ≡ uses b ut) × (counts b < 2 ^ 64)

one_less :
    (e : ℕ) (counts : Counts) (x : ℕ)
    → (if x == e then 1 else 0) ≤ counts x
    → counts x < 2 ^ 64
    → change e (u64 (counts e + (2 ^ 64 - 1))) counts x ≡ counts x - (if x == e then 1 else 0)
unfolding change
one_less e counts x some_use small = elim (Bool-cases (x == e)) [
  | inr other ↦ rw (other, change) (omega arith)
  | inl same ↦
      let is : x ≡ e = (==_iff x e).0 same in
      let used : 1 ≤ counts x = rw same at some_use in rw (same, change, sym is) (omega arith)
]

release-occurrences :
    (es : List ℕ) (counts : Counts)
    → ((x : ℕ) → (occurrences x es ≤ counts x) × (counts x < 2 ^ 64))
    → (b : ℕ) → release es counts b ≡ counts b - occurrences b es
unfolding release occurrences
release-occurrences [] counts h b = omega arith
release-occurrences (e ∷ es) counts h b =
    let counts' : Counts = change e (u64 (counts e + (2 ^ 64 - 1))) counts in
    let less : (x : ℕ) → counts' x ≡ counts x - (if x == e then 1 else 0) =
      λ x. one_less e counts x (omega (arith, (h x).0)) (h x).1 in
    let left : (x : ℕ) → (occurrences x es ≤ counts' x) × (counts' x < 2 ^ 64) =
      λ x. (omega (arith, less x, (h x).0), omega (arith, less x, (h x).1)) in
    omega (arith, release-occurrences es counts' left b, less b)

stream_cancel-uses :
    (su : StreamUsage) (counts : Counts)
    → ((x : ℕ) → (stream_uses x su ≤ counts x) × (counts x < 2 ^ 64))
    → (b : ℕ) → stream_cancel su counts b ≡ counts b - stream_uses b su
unfolding stream_cancel stream_uses
stream_cancel-uses [] counts h b = omega arith
stream_cancel-uses (z ∷ su) counts h b =
    let less : (x : ℕ) → release z.entries counts x ≡ counts x - occurrences x z.entries =
      release-occurrences z.entries counts (λ x. (omega (arith, (h x).0), (h x).1)) in
    let left : (x : ℕ)
        → (stream_uses x su ≤ release z.entries counts x) × (release z.entries counts x < 2 ^ 64) =
      λ x. (omega (arith, less x, (h x).0), omega (arith, less x, (h x).1)) in
    omega (arith, stream_cancel-uses su (release z.entries counts) left b, less b)

uses-delete :
    (id : ℕ) (ut : UsageTracker) {su : StreamUsage} (b : ℕ)
    → find id ut ≡ some su
    → uses b (delete id ut) + stream_uses b su ≡ uses b ut
unfolding uses find delete
uses-delete id [] {su} b h = cc
uses-delete id ((key, old) ∷ ut) {su} b h = elim (Bool-cases (key == id)) [
  | inl same ↦
      let is : old ≡ su = cc (rw (same, find) at h) in
      rw (same, delete) (omega (arith, ap (stream_uses b) is))
  | inr other ↦ rw (other, delete) (omega (arith, uses-delete id ut b (rw (other, find) at h)))
]

uses-put :
    (id : ℕ) (ut : UsageTracker) (new : StreamUsage) {su : StreamUsage} (b : ℕ)
    → find id ut ≡ some su
    → uses b (put id new ut) + stream_uses b su ≡ uses b ut + stream_uses b new
unfolding uses find put
uses-put id [] new {su} b h = cc
uses-put id ((key, old) ∷ ut) new {su} b h = elim (Bool-cases (key == id)) [
  | inl same ↦
      let is : old ≡ su = cc (rw (same, find) at h) in
      rw (same, put) (omega (arith, ap (stream_uses b) is))
  | inr other ↦ rw (other, put) (omega (arith, uses-put id ut new b (rw (other, find) at h)))
]

ack-block :
    (id : ℕ) (ut : UsageTracker) (counts : Counts) (z : HeaderBlockUsage) (su : StreamUsage)
    → find id ut ≡ some (z ∷ su)
    → Counted counts ut
    → Counted (release z.entries counts) (if length su == 0 then delete id ut else put id su ut)
unfolding stream_uses
ack-block id ut counts z [] at h b =
    let kept : (x : ℕ) → uses x (delete id ut) + stream_uses x (z ∷ []) ≡ uses x ut =
      λ x. uses-delete id ut x at in
    let less =
      release-occurrences z.entries counts (λ x. (omega (arith, kept x, (h x).0), (h x).1)) b in
    (omega (arith, less, kept b, (h b).0), omega (arith, less, (h b).1))
ack-block id ut counts z (y ∷ su) at h b =
    let kept : (x : ℕ)
        → uses x (put id (y ∷ su) ut) + stream_uses x (z ∷ y ∷ su)
          ≡ uses x ut + stream_uses x (y ∷ su) =
      λ x. uses-put id ut (y ∷ su) x at in
    let less =
      release-occurrences z.entries counts (λ x. (omega (arith, kept x, (h x).0), (h x).1)) b in
    let more : (suc (length su) == 0) ≡ false = ground arith in
    (rw more (omega (arith, less, kept b, (h b).0)), omega (arith, less, (h b).1))

-- Acknowledging the oldest header block of any stream keeps each entry's use count at the number
-- of times that the tracked blocks refer to it, when it was that and below 2^64.
pub ack-Counted :
    (id : ℕ) (ut : UsageTracker) (counts : Counts)
    → Counted counts ut
    → Counted (ack id ut counts).0.1 (ack id ut counts).0.0
unfolding ack after_ack stream_ack stream_uses
ack-Counted id ut counts h = go (find id ut) refl
  where
    go :
        (x : Option StreamUsage)
        → find id ut ≡ x
        → Counted (ack id ut counts).0.1 (ack id ut counts).0.0
    go none at = rw (at, ack) h
    go (some []) at = rw (at, ack) (λ b. (omega (arith, uses-delete id ut b at, (h b).0), (h b).1))
    go (some (z ∷ su)) at = rw (at, ack) (ack-block id ut counts z su at h)

-- Cancelling any stream keeps each entry's use count at the number of times that the tracked
-- blocks refer to it, when it was that and below 2^64.
pub cancel-Counted :
    (id : ℕ) (ut : UsageTracker) (counts : Counts)
    → Counted counts ut
    → Counted (cancel id ut counts).0.1 (cancel id ut counts).0.0
unfolding cancel
cancel-Counted id ut counts h = elim (Option-cases (find id ut)) [
  | inl at ↦ rw (at, cancel) h
  | inr (su, at) ↦
      let kept : (x : ℕ) → uses x (delete id ut) + stream_uses x su ≡ uses x ut =
        λ x. uses-delete id ut x at in
      let less : (x : ℕ) → stream_cancel su counts x ≡ counts x - stream_uses x su =
        stream_cancel-uses su counts (λ x. (omega (arith, kept x, (h x).0), (h x).1)) in
      rw (at, cancel)
        (λ b. (omega (arith, less b, kept b, (h b).0), omega (arith, less b, (h b).1)))
]

stream_uses-append :
    (b : ℕ) (su : StreamUsage) (z : HeaderBlockUsage)
    → stream_uses b (su ++ z ∷ []) ≡ stream_uses b su + occurrences b z.entries
unfolding stream_uses
stream_uses-append b [] z = omega arith
stream_uses-append b (y ∷ su) z = omega (arith, stream_uses-append b su z)

uses-put-new :
    (id : ℕ) (ut : UsageTracker) (su : StreamUsage) (b : ℕ)
    → find id ut ≡ none
    → (uses b (put id su ut) ≡ uses b ut + stream_uses b su) × (find id (put id su ut) ≡ some su)
unfolding uses find put
uses-put-new id [] su b h = (omega arith, rw ((==_iff id id).1 refl) refl)
uses-put-new id ((key, old) ∷ ut) su b h = elim (Bool-cases (key == id)) [
  | inl same ↦ cc (rw (same, find) at h)
  | inr other ↦
      let (more, found) = uses-put-new id ut su b (rw (other, find) at h) in
      (rw (other, put) (omega (arith, more)), rw (other, put) (rw (other, find) found))
]

-- Recording a block adds its entries to the uses of the tracker.
record_usage-uses :
    (largest_base id : ℕ) (block : HeaderBlockUsage) (ut : UsageTracker) (b : ℕ)
    → (0 < largest_base) ⊎ (block.entries ≡ [])
    → uses b (record_usage largest_base id block ut) ≡ uses b ut + occurrences b block.entries
unfolding record_usage get stream_add stream_uses occurrences
record_usage-uses largest_base id block ut b h = elim (Option-cases (find id ut)) [
  | inl at ↦
      let (same, found) = uses-put-new id ut [] b at in
      elim h [
        | inl some_base ↦
            rw (lt→ltb 0 largest_base some_base, at, record_usage, get)
              (omega (arith, same, uses-put id (put id [] ut) (block ∷ []) b found))
        | inr empty ↦ elim (Bool-cases (ltb 0 largest_base)) [
          | inl has ↦
              rw (has, at, record_usage, get)
                (omega (arith, same, uses-put id (put id [] ut) (block ∷ []) b found))
          | inr lacks ↦
              rw (lacks, at, record_usage, get) (omega (arith, same, ap (occurrences b) empty))
        ]
      ]
  | inr (su, at) ↦
      let added = uses-put id ut (su ++ block ∷ []) b at in
      elim h [
        | inl some_base ↦
            rw (lt→ltb 0 largest_base some_base, at, record_usage, get)
              (omega (arith, added, stream_uses-append b su block))
        | inr empty ↦ elim (Bool-cases (ltb 0 largest_base)) [
          | inl has ↦
              rw (has, at, record_usage, get) (omega (arith, added, stream_uses-append b su block))
          | inr lacks ↦ rw (lacks, at, record_usage, get) (omega (arith, ap (occurrences b) empty))
        ]
      ]
]

one_more :
    (e : ℕ) (block : HeaderBlockUsage) (counts : Counts) (x : ℕ)
    → counts x + (if x == e then 1 else 0) < 2 ^ 64
    → (block_add e (block, counts)).1 x ≡ counts x + (if x == e then 1 else 0)
unfolding block_add change
one_more e block counts x small = elim (Bool-cases (x == e)) [
  | inr other ↦ rw (other, change, block_add) (omega arith)
  | inl same ↦
      let is : x ≡ e = (==_iff x e).0 same in
      let room : counts x + 1 < 2 ^ 64 = rw same at small in
      rw (same, change, block_add, sym is) (omega arith)
]

add_uses-occurrences :
    (es : List ℕ) (block : HeaderBlockUsage) (counts : Counts)
    → ((x : ℕ) → counts x + occurrences x es < 2 ^ 64)
    → ((add_uses es (block, counts)).0.entries ≡ block.entries ++ es)
      × ((b : ℕ) → (add_uses es (block, counts)).1 b ≡ counts b + occurrences b es)
unfolding add_uses occurrences block_add
add_uses-occurrences [] block counts h = (sym (append-nil block.entries), λ b. omega arith)
add_uses-occurrences (e ∷ es) block counts h =
    let (block', counts') = block_add e (block, counts) in
    let more : (x : ℕ) → counts' x ≡ counts x + (if x == e then 1 else 0) =
      λ x. one_more e block counts x (omega (arith, h x)) in
    let (entries, total) =
      add_uses-occurrences es block' counts' (λ x. omega (arith, more x, h x)) in
    (entries ∙ append_assoc block.entries (e ∷ []) es, λ b. omega (arith, total b, more b))

-- Writing a header block that refers to any entries, and recording it for any stream, keeps each
-- entry's use count at the number of times that the tracked blocks refer to it, as long as none
-- comes to 2^64 and the header block's largest base is not 0 when it refers to entries.
pub record_usage-Counted :
    (largest_base id : ℕ) (es : List ℕ) (ut : UsageTracker) (counts : Counts)
    → Counted counts ut
    → ((x : ℕ) → counts x + occurrences x es < 2 ^ 64)
    → (0 < largest_base) ⊎ (es ≡ [])
    → Counted
        (add_uses es (new_block, counts)).1
        (record_usage largest_base id (add_uses es (new_block, counts)).0 ut)
record_usage-Counted largest_base id es ut counts h room refers b =
    let (entries, total) = add_uses-occurrences es new_block counts room in
    let block = (add_uses es (new_block, counts)).0 in
    let refers' : (0 < largest_base) ⊎ (block.entries ≡ []) = elim refers [
      | inl base ↦ inl base
      | inr empty ↦ inr (entries ∙ empty)
    ] in
    (
      omega (
        arith,
        total b,
        (h b).0,
        record_usage-uses largest_base id block ut b refers',
        ap (occurrences b) entries,
      ),
      omega (arith, total b, room b),
    )
