-- ===== src/ServerPush/Race.antt =====
-- `getNextPushID` on several goroutines. It holds the read lock of `pushIDLock`, which any number
-- of goroutines may hold at once, so its loads and its store interleave.
use minhq.Base.{ℕ, ◌+◌, ◌<◌, ◌≡◌, ◌≢◌, ◌==◌, if◌then◌else◌, arith}

-- Where a goroutine is: before the call, behind `id := c.nextPushID`, behind the load of
-- `c.nextPushID++`, or returned with an ID.
pub data Point : Type 0 where
  start : Point
  read_id : ℕ → Point
  loaded : ℕ → ℕ → Point
  returned : ℕ → Point

pub record Threads : Type 0 where
  pub next_push_id : ℕ
  pub max_push_id : ℕ
  pub points : ℕ → Point

pub move : (ℕ → Point) → ℕ → Point → ℕ → Point
move points i p j = if i == j then p else points j

-- One step of goroutine `i` under the read lock.
pub data Step (i : ℕ) (s : Threads) : Threads → Type 0 where
  check :
      s.points i ≡ Point.start
      → s.next_push_id < s.max_push_id
      → Step i s (record s { points = move s.points i (Point.read_id s.next_push_id) })
  load :
      (id : ℕ)
      → s.points i ≡ Point.read_id id
      → Step i s (record s { points = move s.points i (Point.loaded id s.next_push_id) })
  store :
      (id n : ℕ)
      → s.points i ≡ Point.loaded id n
      → Step i s (record s { next_push_id = n + 1; points = move s.points i (Point.returned id) })

pub data Reach (s : Threads) : Threads → Type 0 where
  here : Reach s s
  step : {t u : Threads} (i : ℕ) → Reach s t → Step i t u → Reach s u

-- From every state with an ID to give out and two goroutines about to call `getNextPushID`, which
-- holds only the read lock, there is a run in which both are given the same ID.
pub duplicate_push_id :
    (s : Threads) (i j : ℕ)
    → i ≢ j
    → s.points i ≡ Point.start
    → s.points j ≡ Point.start
    → s.next_push_id < s.max_push_id
    → (t : Threads) × Reach s t
      × (t.points i ≡ Point.returned s.next_push_id)
      × (t.points j ≡ Point.returned s.next_push_id)
unfolding move
duplicate_push_id s i j apart pi pj room =
    let n = s.next_push_id in
    let s₁ : Threads = record s { points = move s.points i (Point.read_id n) } in
    let s₂ : Threads = record s { points = move s₁.points j (Point.read_id n) } in
    let s₃ : Threads = record s { points = move s₂.points i (Point.loaded n n) } in
    let s₄ : Threads = record s {
      next_push_id = n + 1;
      points = move s₃.points i (Point.returned n);
    } in
    let s₅ : Threads = record s {
      next_push_id = n + 1;
      points = move s₄.points j (Point.loaded n (n + 1));
    } in
    let s₆ : Threads = record s {
      next_push_id = n + 1 + 1;
      points = move s₅.points j (Point.returned n);
    } in
    let r₁ : Reach s s₁ = step i here (check pi room) in
    let r₂ : Reach s s₂ = step j r₁ (check (ground arith) room) in
    let r₃ : Reach s s₃ = step i r₂ (load n (ground arith)) in
    let r₄ : Reach s s₄ = step i r₃ (store n n (ground arith)) in
    let r₅ : Reach s s₅ = step j r₄ (load n (ground arith)) in
    let r₆ : Reach s s₆ = step j r₅ (store n (n + 1) (ground arith)) in
    (s₆, r₆, ground arith, ground arith)
