-- ===== src/Frame.antt =====
-- frame.go: variable-length integers and frames.
pub mod Varint
pub mod Frames
use minhq.Base.{
  ℕ, ◌+◌, ◌-◌, ◌*◌, ◌^◌, List, Bool, Option, none, some, Error, Result, ok, err, ltb, leb, length,
  if◌then◌else◌,
}
use minhq.Base.Words.{◌<<<◌, u8}
use minhq.Io.BitReader.{Reads, ◌>>=◌, pure, read_bits, read_byte}
use minhq.Io.BitWriter.{BitWriter, Counted, write_bits, write_byte, write}

pub data FrameType : Type 0 where
  frame_data frame_headers frame_priority frame_cancel_push : FrameType
  frame_settings frame_push_promise frame_goaway frame_max_push_id : FrameType
  frame_unknown : ℕ → FrameType

-- The constants of frame.go; a Go FrameType is a byte.
unfoldable pub frame_code : FrameType → ℕ
frame_code FrameType.frame_data = 0
frame_code FrameType.frame_headers = 1
frame_code FrameType.frame_priority = 2
frame_code FrameType.frame_cancel_push = 3
frame_code FrameType.frame_settings = 4
frame_code FrameType.frame_push_promise = 5
frame_code FrameType.frame_goaway = 7
frame_code FrameType.frame_max_push_id = 13
frame_code (FrameType.frame_unknown t) = t

-- The first two bits say how many bytes there are: 1, 2, 4 or 8.
pub read_varint : Reads ℕ
read_varint = do len ← read_bits 2; read_bits ((8 <<< len) - 2)

-- The header of a frame: its type and the length of its payload.
pub read_frame : Reads (ℕ × ℕ)
read_frame = do len ← read_varint; t ← read_byte; pure (t, len)

unfoldable pub varint_size : ℕ → ℕ
varint_size v =
    if leb (2 ^ 30) v then 3 else if leb (2 ^ 14) v then 2 else if leb (2 ^ 6) v then 1 else 0

-- An error of the second write is dropped, as the source drops it.
varint_value : ℕ → ℕ → BitWriter × Option Error → Counted
varint_value v size (bw, some e) = (bw, 0, some e)
varint_value v size (bw, none) =
    let n = u8 (1 <<< size) in
    let (bw', e) = write_bits v (n * 8 - 2) bw in
    elim e [ some x ↦ (bw', 0, none) | none ↦ (bw', n, none) ]

pub write_varint : ℕ → BitWriter → Counted
unfolding varint_value
write_varint v bw =
    if leb (2 ^ 62) v
    then (bw, 0, some Error.value_too_large)
    else varint_value v (varint_size v) (write_bits (varint_size v) 2 bw)

frame_payload : ℕ → List ℕ → BitWriter × Option Error → Counted
frame_payload written p (bw, some e) = (bw, written, some e)
frame_payload written p (bw, none) = let (bw', n, e) = write p bw in (bw', written + n + 2, e)

frame_type : ℕ → List ℕ → Counted → Counted
frame_type t p (bw, written, some e) = (bw, written, some e)
frame_type t p (bw, written, none) = frame_payload written p (write_byte t bw)

-- The payload is copied by one call of `Write`.
pub write_frame : ℕ → List ℕ → BitWriter → Counted
unfolding frame_type frame_payload
write_frame t p bw = frame_type t p (write_varint (length p) bw)
