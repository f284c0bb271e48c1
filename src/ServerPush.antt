-- ===== src/ServerPush.antt =====
-- server_connection.go: the push IDs of a server connection. The frame handlers read their payload
-- with frame.go.
pub mod Issuing
pub mod Race
use minhq.Base.{
  ℕ, ◌+◌, ◌≤◌, List, [], ◌∷◌, ◌++◌, Bool, true, false, ◌||◌, Option, none, some, Error, Result, ok,
  err, ltb, leb, ◌==◌, if◌then◌else◌,
}
use minhq.Io.BitReader.{BitReader, Reads, ◌>>=◌, pure, read_byte}
use minhq.Frame.{FrameType, frame_code, read_varint, write_varint, write_frame}
use minhq.Io.BitWriter.{BitWriter}

-- `CheckForEOF`: reads one byte, and wants the end.
pub check_for_eof : BitReader → BitReader × Option Error
check_for_eof r =
    let (r', x) = read_byte r in
    elim x [
      | ok b ↦ (r', some Error.extra_data)
      | err Error.eof ↦ (r', none)
      | err e ↦ (r', some e)
    ]

-- `HTTPError(3)`.
abbrev pub err_wtf : ℕ
err_wtf = 3

-- The fields of `ServerConnection` that concern pushes, and the codes given to `FatalError`.
pub record ServerConnection : Type 0 where
  pub next_push_id : ℕ
  pub max_push_id : ℕ
  pub cancelled_pushes : List ℕ
  pub fatal : List ℕ

pub new_server_connection : ServerConnection
new_server_connection = record {
  next_push_id = 0;
  max_push_id = 0;
  cancelled_pushes = [];
  fatal = [];
}

fatal_error : ServerConnection → ServerConnection
fatal_error c = record c { fatal = c.fatal ++ err_wtf ∷ [] }

raise_max : ServerConnection → ℕ → ServerConnection
raise_max c n = if ltb c.max_push_id n then record c { max_push_id = n } else c

-- What both handlers read: a push ID and nothing behind it.
read_push_id : BitReader → Result ℕ
read_push_id r =
    let (r', x) = read_varint r in
    elim x [
      | err e ↦ err e
      | ok n ↦ (let (r'', e) = check_for_eof r' in elim e [ some x ↦ err x | none ↦ ok n ])
    ]

pub handle_max_push_id : BitReader → ServerConnection → ServerConnection × Option Error
unfolding fatal_error raise_max read_push_id
handle_max_push_id r c = elim (read_push_id r) [
  | ok n ↦ (raise_max c n, none)
  | err e ↦ (fatal_error c, some e)
]

pub get_next_push_id : ServerConnection → ServerConnection × Result ℕ
get_next_push_id c =
    if leb c.max_push_id c.next_push_id
    then (c, err Error.no_push_ids)
    else (record c { next_push_id = c.next_push_id + 1 }, ok c.next_push_id)

pub handle_cancel_push : BitReader → ServerConnection → ServerConnection × Option Error
unfolding read_push_id
handle_cancel_push r c = elim (read_push_id r) [
  | ok n ↦ (record c { cancelled_pushes = n ∷ c.cancelled_pushes }, none)
  | err e ↦ (c, some e)
]

-- The varint goes to a buffer, which is an io.ByteWriter, and the frame to the control stream.
abbrev pub new_buffer : BitWriter
new_buffer = record {
  sink = record { bytes = []; answers = []; byte_writer = true };
  saved = 0;
  saved_bits = 0;
  bytes_written = 0;
}

pub cancel_push : ℕ → BitWriter → ServerConnection → (BitWriter × ServerConnection) × Option Error
cancel_push id control c =
    let (buf, n, e) = write_varint id new_buffer in
    let (control', n', e') =
      write_frame (frame_code FrameType.frame_cancel_push) buf.sink.bytes control in
    elim e [
      | some x ↦ ((control, c), some x)
      | none ↦ elim e' [
        | some x ↦ ((control', c), some x)
        | none ↦ ((control', record c { cancelled_pushes = id ∷ c.cancelled_pushes }), none)
      ]
    ]

-- The map `cancelledPushes` holds true for the listed IDs.
pub push_cancelled : ℕ → List ℕ → Bool
push_cancelled id [] = false
push_cancelled id (x ∷ xs) = id == x || push_cancelled id xs

pub handle_frame : FrameType → BitReader → ServerConnection → ServerConnection × Option Error
handle_frame FrameType.frame_max_push_id r c = handle_max_push_id r c
handle_frame FrameType.frame_cancel_push r c = handle_cancel_push r c
handle_frame t r c = (c, some Error.invalid_frame)
