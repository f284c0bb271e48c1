-- ===== src/Hc/QpackWriter/Calls.antt =====
-- Any sequence of calls on a QPACK encoder: header blocks, instructions of the decoder, and new limits.
use minhq.Base.{ℕ, List, [], ◌∷◌, Option, none, some}
use minhq.Base.Names.{Name}
use minhq.Io.BitWriter.{Sink}
use minhq.Hc.Strings.{HuffmanCodingChoice}
use minhq.Hc.Headers.{HeaderField}
use minhq.Hc.IndexPreferences.{IndexPrefs}
use minhq.Hc.QpackFeedback.{Instruction}
use minhq.Hc.QpackEncoder.{obey, set_max_blocked_streams}
use minhq.Hc.QpackWriter.{Stream}
use minhq.Hc.QpackWriter.Blocks.{qpack_write_header_block}

-- A header block for a stream, on a transport of its own.
pub data Call : Type 0 where
  write_headers : ℕ → List HeaderField → Sink → Call
  take_instruction : Instruction → Call
  limit_blocked : ℕ → Call

module _ (to_lower : Name → Name) (huffman : HuffmanCodingChoice) (prefs : IndexPrefs) where
  pub make_call : Call → Stream → Option Stream
  make_call (Call.write_headers id headers sink) stream =
      elim (qpack_write_header_block to_lower huffman prefs id headers stream sink) [
        | none ↦ none
        | some x ↦ some x.0
      ]
  make_call (Call.take_instruction i) stream = elim (obey i stream.encoder) [
    | none ↦ none
    | some x ↦ some (record stream { encoder = x.0 })
  ]
  make_call (Call.limit_blocked m) stream = elim (set_max_blocked_streams m stream.encoder) [
    | none ↦ none
    | some e ↦ some (record stream { encoder = e })
  ]

  -- The calls one after the other, errors ignored; `none` is a panic.
  unfoldable pub make_calls : List Call → Stream → Option Stream
  make_calls [] stream = some stream
  make_calls (c ∷ cs) stream = elim (make_call c stream) [
    | none ↦ none
    | some stream' ↦ make_calls cs stream'
  ]
