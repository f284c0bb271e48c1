-- ===== src/Io/BitWriter.antt =====
-- io/bitio.go, the writing half: `bitWriter` over an underlying io.Writer.
-- The underlying writer is the environment: `answers` lists what it says to the next bytes that it
-- is offered, and behind the end of that list it accepts.
pub mod View
pub mod Writes
pub mod Wrote
pub mod Slices
pub mod Padding
pub mod Octets
use minhq.Base.{
  ℕ, zero, suc, ◌+◌, ◌-◌, ◌/◌, ◌≤◌, List, [], ◌∷◌, ◌++◌, Bool, true, false, ◌&&◌, Option, none,
  some, Error, ltb, leb, ◌==◌, if◌then◌else◌,
}
use minhq.Base.Words.{◌<<<◌, ◌>>>◌, u8, u64}
use Prim.Native.Nat.{bit_or}

-- `takes_none` is a Write that returns (0, nil).
pub data Answer : Type 0 where
  accepts fails takes_none : Answer

pub record Sink : Type 0 where
  -- The bytes accepted so far, oldest first.
  pub bytes : List ℕ
  pub answers : List Answer
  -- Whether the writer is an io.ByteWriter too.
  pub byte_writer : Bool

next_answer : List Answer → Answer × List Answer
next_answer [] = (Answer.accepts, [])
next_answer (a ∷ rest) = (a, rest)

take_byte : Sink → ℕ → Answer × List Answer → Sink × Answer
take_byte s c (Answer.accepts, rest) =
    (record s { bytes = s.bytes ++ c ∷ []; answers = rest }, Answer.accepts)
take_byte s c (Answer.fails, rest) = (record s { answers = rest }, Answer.fails)
take_byte s c (Answer.takes_none, rest) = (record s { answers = rest }, Answer.takes_none)

pub offer : Sink → ℕ → Sink × Answer
unfolding next_answer take_byte
offer s c = take_byte s c (next_answer s.answers)

-- Go's (n, err) of one Write of a whole slice, which stops at the first byte not taken.
pub offer_all : Sink → List ℕ → Sink × ℕ × Option Error
offer_all s [] = (s, 0, none)
offer_all s (c ∷ p) =
    let (s', a) = offer s c in
    let (s'', n, e) = offer_all s' p in
    elim a [
      | Answer.accepts ↦ (s'', suc n, e)
      | Answer.fails ↦ (s', 0, some Error.transport_failed)
      | Answer.takes_none ↦ (s', 0, some Error.short_write)
    ]

pub record BitWriter : Type 0 where
  pub sink : Sink
  -- The low `saved_bits` bits of `saved` wait to be written; those above may be junk.
  pub saved : ℕ
  pub saved_bits : ℕ
  pub bytes_written : ℕ

-- A write returns the new state and Go's error, `none` for nil.
abbrev pub Writes : Type 0
Writes = BitWriter → BitWriter × Option Error

infixl 5 ◌>>◌
abbrev pub ◌>>◌ : Writes → Writes → Writes
◌>>◌ m k bw = let (bw', e) = m bw in elim e [ none ↦ k bw' | some x ↦ (bw', some x) ]

abbrev pub done : Writes
done bw = (bw, none)

-- Go's (int, error) of a write.
abbrev pub Counted : Type 0
Counted = BitWriter × ℕ × Option Error

unfoldable pub new_bit_writer : Sink → BitWriter
new_bit_writer s = record { sink = s; saved = 0; saved_bits = 0; bytes_written = 0 }

-- `none` is the panic on a partly written byte.
pub written : BitWriter → Option ℕ
written bw = if ltb 0 bw.saved_bits then none else some bw.bytes_written

after_byte_writer : BitWriter → Sink × Answer → BitWriter × Option Error
after_byte_writer bw (s, Answer.accepts) =
    (record bw { sink = s; bytes_written = bw.bytes_written + 1 }, none)
after_byte_writer bw (s, Answer.fails) =
    (record bw { sink = s; bytes_written = bw.bytes_written + 1 }, some Error.transport_failed)
after_byte_writer bw (s, Answer.takes_none) =
    (record bw { sink = s; bytes_written = bw.bytes_written + 1 }, some Error.transport_failed)

after_writer : BitWriter → Sink × Answer → BitWriter × Option Error
after_writer bw (s, Answer.accepts) =
    (record bw { sink = s; bytes_written = bw.bytes_written + 1 }, none)
after_writer bw (s, Answer.fails) = (record bw { sink = s }, some Error.transport_failed)
after_writer bw (s, Answer.takes_none) = (record bw { sink = s }, some Error.short_write)

pub write_byte_internal : ℕ → BitWriter → BitWriter × Option Error
unfolding offer after_byte_writer after_writer
write_byte_internal c bw =
    if bw.sink.byte_writer
    then after_byte_writer bw (offer bw.sink c)
    else after_writer bw (offer bw.sink c)

-- One round of the loop of `writeSaved` for each whole octet that is saved.
pub write_saved_loop : ℕ → BitWriter → BitWriter × Option Error
write_saved_loop zero bw = (bw, none)
write_saved_loop (suc rounds) bw =
    let (bw', e) = write_byte_internal (u8 (bw.saved >>> (bw.saved_bits - 8))) bw in
    let rest = write_saved_loop rounds (record bw' { saved_bits = bw'.saved_bits - 8 }) in
    if leb 8 bw.saved_bits then elim e [ none ↦ rest | some x ↦ (bw', some x) ] else (bw, none)

pub write_saved : BitWriter → BitWriter × Option Error
write_saved bw = write_saved_loop (bw.saved_bits / 8) bw

-- `WriteBits` past its checks, where the new bits stay below one octet.
pub save_bits : ℕ → ℕ → BitWriter → BitWriter × Option Error
save_bits v count bw = (
  record bw {
    saved = bit_or (u64 (bw.saved <<< count)) v;
    saved_bits = u8 (bw.saved_bits + count);
  },
  none,
)

-- `count + bw.savedBits - 8` in bytes, which wrap.
abbrev pub remainder_bits : ℕ → ℕ → ℕ
remainder_bits count saved_bits = u8 (count + saved_bits + 256 - 8)

-- The first whole octet, then whatever else is whole; an error of the second write is dropped.
pub write_whole : ℕ → ℕ → BitWriter → BitWriter × Option Error
write_whole v count bw =
    let remainder = remainder_bits count bw.saved_bits in
    let x = u8 (bit_or (u64 (bw.saved <<< (8 - bw.saved_bits))) (v >>> remainder)) in
    let (bw', e) = write_byte_internal x bw in
    elim e [
      | some x ↦ (bw', some x)
      | none ↦ ((write_saved (record bw' { saved = v; saved_bits = remainder })).0, none)
    ]

flush_and_write : ℕ → ℕ → BitWriter × Option Error → BitWriter × Option Error
flush_and_write v count (bw, none) = write_whole v count bw
flush_and_write v count (bw, some e) = (bw, some e)

pub write_bits : ℕ → ℕ → BitWriter → BitWriter × Option Error
unfolding save_bits write_whole flush_and_write
write_bits v count bw =
    if ltb 64 count
    then (bw, some Error.too_large)
    else if ltb count 64 && leb (1 <<< count) v
    then (bw, some Error.too_large)
    else if ltb (u8 (bw.saved_bits + count)) 8
    then save_bits v count bw
    else flush_and_write v count (write_saved bw)

pub write_bit : ℕ → BitWriter → BitWriter × Option Error
write_bit bit bw = write_bits bit 1 bw

pub write_byte : ℕ → BitWriter → BitWriter × Option Error
write_byte c bw = write_bits c 8 bw

-- The loop of `Write` on a writer that holds part of an octet, behind `i` bytes.
write_loop : ℕ → List ℕ → BitWriter → Counted
write_loop i [] bw = (bw, i, none)
write_loop i (b ∷ p) bw =
    let (bw', e) = write_byte b bw in
    let rest = write_loop (i + 1) p bw' in elim e [ none ↦ rest | some x ↦ (bw', i, some x) ]

write_aligned : BitWriter → Sink × ℕ × Option Error → Counted
write_aligned bw (s, n, e) = (record bw { sink = s; bytes_written = bw.bytes_written + n }, n, e)

pub write : List ℕ → BitWriter → Counted
unfolding write_loop write_aligned
write p bw =
    if bw.saved_bits == 0 then write_aligned bw (offer_all bw.sink p) else write_loop 0 p bw

pad_rest : ℕ → BitWriter × Option Error → BitWriter × Option Error
pad_rest p (bw, some e) = (bw, some e)
pad_rest p (bw, none) =
    let (bw', e) = write_bits (p >>> bw.saved_bits) (8 - bw.saved_bits) bw in
    elim e [ some x ↦ (bw', some x) | none ↦ (record bw' { saved = 0; saved_bits = 0 }, none) ]

pub pad : ℕ → BitWriter → BitWriter × Option Error
unfolding pad_rest
pad p bw = if ltb 0 bw.saved_bits then pad_rest p (write_saved bw) else (bw, none)
