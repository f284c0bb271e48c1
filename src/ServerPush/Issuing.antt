-- ===== src/ServerPush/Issuing.antt =====
-- The IDs that a server connection gives out, over any sequence of calls.
use minhq.Base.{
  ℕ, zero, suc, ◌+◌, ◌≤◌, ◌≡◌, refl, ap, List, [], ◌∷◌, ◌++◌, Result, ok, err, arith, length, inl,
  inr, Bool-cases, leb,
}
use minhq.Io.BitReader.{BitReader}
use minhq.Frame.{FrameType}
use minhq.ServerPush.{
  ServerConnection, get_next_push_id, handle_frame, handle_max_push_id, handle_cancel_push,
}

-- A call: a frame on the control stream, or a request for the next ID.
pub data Call : Type 0 where
  frame : FrameType → BitReader → Call
  next : Call

-- The IDs that a call gives out.
pub issued : Result ℕ → List ℕ
issued (ok id) = id ∷ []
issued (err e) = []

pub call : Call → ServerConnection → ServerConnection × List ℕ
unfolding issued
call (frame t r) c = ((handle_frame t r c).0, [])
call next c = ((get_next_push_id c).0, issued (get_next_push_id c).1)

pub run : List Call → ServerConnection → ServerConnection × List ℕ
run [] c = (c, [])
run (x ∷ xs) c = let (c', ids) = call x c in let (c'', ids') = run xs c' in (c'', ids ++ ids')

unfoldable pub count_from : ℕ → ℕ → List ℕ
count_from n zero = []
count_from n (suc k) = n ∷ count_from (n + 1) k

-- A frame keeps the next ID and never lowers the limit.
handle_frame-next :
    (t : FrameType) (r : BitReader) (c : ServerConnection)
    → ((handle_frame t r c).0.next_push_id ≡ c.next_push_id)
      × (c.max_push_id ≤ (handle_frame t r c).0.max_push_id)
unfolding handle_frame handle_max_push_id handle_cancel_push
handle_frame-next FrameType.frame_max_push_id r c = ground arith
handle_frame-next FrameType.frame_cancel_push r c = ground arith
handle_frame-next t r c = ground arith

-- Over any sequence of frames and requests for an ID, from a connection whose next ID is at most
-- its limit, the IDs given out are the numbers from the next ID on without a gap or a repetition,
-- and the next ID never passes the limit.
pub run-count_from :
    (xs : List Call) (c : ServerConnection)
    → c.next_push_id ≤ c.max_push_id
    → ((run xs c).1 ≡ count_from c.next_push_id (length (run xs c).1))
      × ((run xs c).0.next_push_id ≡ c.next_push_id + length (run xs c).1)
      × ((run xs c).0.next_push_id ≤ (run xs c).0.max_push_id)
unfolding run call count_from get_next_push_id
run-count_from [] c h = (refl, omega arith, h)
run-count_from (frame t r ∷ xs) c h =
    let (same, up) = handle_frame-next t r c in
    let (a, b, d) = run-count_from xs (handle_frame t r c).0 (omega arith) in
    (rw same at a, omega arith, d)
run-count_from (next ∷ xs) c h = elim (Bool-cases (leb c.max_push_id c.next_push_id)) [
  | inl e ↦ rw (e, call, issued) (run-count_from xs c h)
  | inr e ↦
      let c' = record c { next_push_id = c.next_push_id + 1 } in
      let (a, b, d) = run-count_from xs c' (ground arith) in
      rw (e, call, issued) (ap (◌∷◌ c.next_push_id) a, omega arith, d)
]
