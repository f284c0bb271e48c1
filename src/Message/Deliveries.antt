-- ===== src/Message/Deliveries.antt =====
-- message.go: what `handleMessage` delivers, whatever the handlers do.
use minhq.Base.{List, [], ◌∷◌, ◌++◌, ◌≡◌, ◌⊎◌, Bool, true, false, Option, none, some, Error, map}
use minhq.Frame.{FrameType}
use minhq.Message.{Frame, Delivery, body, trailers, headers, other, Handlers, Progress, read_loop}

-- Where a message is: before its final headers, in its body, behind its trailers.
pub data Phase : Type 0 where
  opening in_body closed : Phase

-- The phase that a sequence of deliveries leads to, if it is in order.
unfoldable pub advance : Phase → Delivery → Option Phase
advance opening (headers p fs final) = elim final [ true ↦ some in_body | false ↦ some opening ]
advance opening (other t p) = some opening
advance opening (body p) = none
advance opening (trailers p fs) = none
advance in_body (body p) = some in_body
advance in_body (other t p) = some in_body
advance in_body (trailers p fs) = some closed
advance in_body (headers p fs final) = none
advance closed d = none

unfoldable pub advance_all : Phase → List Delivery → Option Phase
advance_all q [] = some q
advance_all q (d ∷ ds) = elim (advance q d) [ none ↦ none | some q' ↦ advance_all q' ds ]

abbrev pub phase_of : Bool → Bool → Phase
phase_of got true = closed
phase_of true false = in_body
phase_of false false = opening

-- The frame that a delivery came from.
abbrev pub frame_of : Delivery → Frame
frame_of (body p) = record { kind = FrameType.frame_data; payload = p }
frame_of (trailers p fs) = record { kind = FrameType.frame_headers; payload = p }
frame_of (headers p fs final) = record { kind = FrameType.frame_headers; payload = p }
frame_of (other t p) = record { kind = t; payload = p }

abbrev pub failed : Option Error → Bool
failed none = false
failed (some e) = true

module _ {H : Type 0} (hs : Handlers H) where
  -- A frame delivers itself, or fails and delivers nothing.
  abbrev pub Delivers : Frame → Progress H → Progress H × Option Error → Type 0
  Delivers f p (p', some e) = p'.delivered ≡ p.delivered
  Delivers f p (p', none) =
      (d : Delivery) × (p'.delivered ≡ p.delivered ++ d ∷ [])
      × (frame_of d ≡ f)
      × (advance (phase_of p.got_first_headers p.after_trailers) d
          ≡ some (phase_of p'.got_first_headers p'.after_trailers))

  -- A run over the frames `fs`: its deliveries are in order and come from a prefix of the frames,
  -- from all of them unless there is an error.
  abbrev pub Follows : List Frame → Error → List Delivery → Option Error → Type 0
  Follows fs stop ds e =
      ((q : Phase) × (advance_all opening ds ≡ some q))
      × (rest : List Frame) × (fs ≡ map frame_of ds ++ rest)
      × (((e ≡ none) × (rest ≡ []) × (stop ≡ Error.eof)) ⊎ ((x : Error) × (e ≡ some x)))

  abbrev Outcome : List Frame → List Frame → Error → Progress H × Option Error → Type 0
  Outcome before fs stop (p, e) = Follows (before ++ fs) stop p.delivered e

  -- What holds of the loop on `fs` from a state that the frames `before` led to.
  abbrev Continues : List Frame → Error → Type 0
  Continues fs stop =
      (p : Progress H) (before : List Frame)
      → before ≡ map frame_of p.delivered
      → advance_all opening p.delivered ≡ some (phase_of p.got_first_headers p.after_trailers)
      → Outcome before fs stop (read_loop hs fs stop p)
