-- ===== src/Message.antt =====
-- message.go: `handleMessage`, the reading of one message as a sequence of frames.
-- The header decoder and the two handlers are parameters, as they are in the source; what they
-- change is the state `H`. The frames are those that ReadFrame returns before it fails with `stop`.
pub mod Deliveries
use minhq.Base.{
  ℕ, List, [], ◌∷◌, ◌++◌, Bool, true, false, Option, none, some, Error, Result, ok, err,
  if◌then◌else◌,
}
use minhq.Hc.Headers.{HeaderField, validate_pseudo_headers}
use minhq.Frame.{FrameType}

pub record Frame : Type 0 where
  pub kind : FrameType
  pub payload : List ℕ

-- What a frame led to, with the frame's payload: a body reader was added, trailers were sent on the
-- channel, the headers handler took a block (and said whether it was the final one), or the frame
-- handler took the frame.
pub data Delivery : Type 0 where
  body : List ℕ → Delivery
  trailers : List ℕ → List HeaderField → Delivery
  headers : List ℕ → List HeaderField → Bool → Delivery
  other : FrameType → List ℕ → Delivery

pub record Handlers (H : Type 0) : Type 0 where
  pub read_header_block : H → List ℕ → H × Result (List HeaderField)
  pub headers_handler : H → List HeaderField → H × Result Bool
  pub frame_handler : H → FrameType → List ℕ → H × Option Error

pub record Progress (H : Type 0) : Type 0 where
  pub got_first_headers : Bool
  pub after_trailers : Bool
  pub delivered : List Delivery
  pub handlers : H

pub start : {H : Type 0} → H → Progress H
start h = record { got_first_headers = false; after_trailers = false; delivered = []; handlers = h }

module _ {H : Type 0} (hs : Handlers H) where
  deliver : Progress H → H → Delivery → Progress H
  deliver p h d = record p { delivered = p.delivered ++ d ∷ []; handlers = h }

  handle_data : List ℕ → Progress H → Progress H × Option Error
  unfolding deliver
  handle_data payload p =
      if p.got_first_headers
      then (deliver p p.handlers (body payload), none)
      else (p, some Error.invalid_frame)

  -- A block that is in order: trailers, or a block for the headers handler.
  handle_block : List ℕ → List HeaderField → H → Progress H → Progress H × Option Error
  unfolding deliver
  handle_block payload fields h p =
      if p.got_first_headers
      then (record (deliver p h (trailers payload fields)) { after_trailers = true }, none)
      else (let (h', x) = hs.headers_handler h fields in
          elim x [
            | err e ↦ (record p { handlers = h' }, some e)
            | ok final ↦ (
              record (deliver p h' (headers payload fields final)) { got_first_headers = final },
              none,
            )
          ])

  handle_headers : List ℕ → Progress H → Progress H × Option Error
  unfolding handle_block
  handle_headers payload p =
      let (h, x) = hs.read_header_block p.handlers payload in
      elim x [
        | err e ↦ (record p { handlers = h }, some e)
        | ok fields ↦ elim (validate_pseudo_headers fields) [
          | some e ↦ (record p { handlers = h }, some e)
          | none ↦ handle_block payload fields h p
        ]
      ]

  handle_other : FrameType → List ℕ → Progress H → Progress H × Option Error
  unfolding deliver
  handle_other t payload p =
      let (h, x) = hs.frame_handler p.handlers t payload in
      elim x [
        | some e ↦ (record p { handlers = h }, some e)
        | none ↦ (deliver p h (other t payload), none)
      ]

  dispatch : FrameType → List ℕ → Progress H → Progress H × Option Error
  unfolding handle_data handle_headers handle_other
  dispatch FrameType.frame_data payload p = handle_data payload p
  dispatch FrameType.frame_headers payload p = handle_headers payload p
  dispatch t payload p = handle_other t payload p

  -- One round of the loop behind a successful ReadFrame.
  pub handle_frame : Frame → Progress H → Progress H × Option Error
  unfolding dispatch
  handle_frame f p =
      if p.after_trailers then (p, some Error.invalid_frame) else dispatch f.kind f.payload p

  pub read_loop : List Frame → Error → Progress H → Progress H × Option Error
  read_loop [] Error.eof p = (p, none)
  read_loop [] stop p = (p, some stop)
  read_loop (f ∷ fs) stop p =
      let (p', e) = handle_frame f p in
      let rest = read_loop fs stop p' in elim e [ none ↦ rest | some x ↦ (p', some x) ]

  -- The result, and whether the decoder was told that the stream is cancelled. Both channels are
  -- closed on every path.
  pub handle_message : List Frame → Error → H → Progress H × Option Error × Bool
  handle_message fs stop h =
      let (p, e) = read_loop fs stop (start h) in
      elim e [ none ↦ (p, none, false) | some x ↦ (p, some x, true) ]
