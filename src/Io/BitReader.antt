-- ===== src/Io/BitReader.antt =====
-- io/bitio.go, the reading half: `bitReader` over an underlying io.Reader.
-- The underlying reader is the environment: a list of bytes, and the error that it answers with
-- for ever behind them (io.EOF or any other).
pub mod View
pub mod Fetch
pub mod Reads
pub mod Gives
pub mod Progress
use minhq.Base.{
  ℕ, zero, suc, ◌+◌, ◌-◌, ◌/◌, ◌^◌, List, [], ◌∷◌, Option, none, some, Error, Result, ok, err, ltb,
  leb, ◌==◌, if◌then◌else◌,
}
use minhq.Base.Words.{◌<<<◌, ◌>>>◌, u8, u64}
use Prim.Native.Nat.{bit_and, bit_or}

pub record Source : Type 0 where
  pub bytes : List ℕ
  pub stop : Error

pub record BitReader : Type 0 where
  pub source : Source
  -- The low `saved_bits` bits of `saved` are still to be read; those above may be junk.
  pub saved : ℕ
  pub saved_bits : ℕ

-- A read returns the new state and Go's (value, error).
abbrev pub Reads {ℓ} : Type ℓ → Type ℓ
Reads A = BitReader → BitReader × Result A

infixl 5 ◌>>=◌
abbrev pub ◌>>=◌ {ℓ κ} : {A : Type ℓ} {B : Type κ} → Reads A → (A → Reads B) → Reads B
◌>>=◌ m f r = let (r', x) = m r in elim x [ ok a ↦ f a r' | err e ↦ (r', err e) ]

abbrev pub pure {ℓ} : {A : Type ℓ} → A → Reads A
pure a r = (r, ok a)

abbrev pub fail {ℓ} : {A : Type ℓ} → Error → Reads A
fail e r = (r, err e)

unfoldable pub new_bit_reader : Source → BitReader
new_bit_reader s = record { source = s; saved = 0; saved_bits = 0 }

next_byte : List ℕ → BitReader → BitReader × Result ℕ
next_byte [] r = (r, err r.source.stop)
next_byte (b ∷ rest) r = (record r { source = record { bytes = rest; stop = r.source.stop } }, ok b)

pub read_byte_internal : Reads ℕ
unfolding next_byte
read_byte_internal r = next_byte r.source.bytes r

-- Takes the next octet into the saved bits.
pub read_next : BitReader → BitReader × Option Error
read_next r =
    let (r', x) = read_byte_internal r in
    elim x [
      | err e ↦ (r', some e)
      | ok b ↦ (
        record r' { saved = bit_or (u64 (r'.saved <<< 8)) b; saved_bits = u8 (r'.saved_bits + 8) },
        none,
      )
    ]

take_bit : BitReader → BitReader × Result ℕ
take_bit r =
    let n = r.saved_bits - 1 in (record r { saved_bits = n }, ok (bit_and (u8 (r.saved >>> n)) 1))

pub read_bit : Reads ℕ
unfolding take_bit
read_bit r =
    if ltb 0 r.saved_bits
    then take_bit r
    else (let (r', e) = read_next r in elim e [ some x ↦ (r', err x) | none ↦ take_bit r' ])

-- `for br.savedBits+8 <= count`, with the rounds that are left.
pub read_loop : ℕ → ℕ → BitReader → BitReader × Option Error
read_loop zero count r = (r, none)
read_loop (suc rounds) count r =
    let (r', e) = read_next r in
    let rest = read_loop rounds count r' in
    if leb (u8 (r.saved_bits + 8)) count
    then elim e [ none ↦ rest | some x ↦ (r', some x) ]
    else (r, none)

-- `^uint64(0) >> (64 - count)`.
abbrev pub ones : ℕ → ℕ
ones count = (2 ^ 64 - 1) >>> (64 - count)

-- Everything asked for is saved.
take_bits : ℕ → BitReader → BitReader × Result ℕ
take_bits count r =
    let n = r.saved_bits - count in
    (record r { saved_bits = n }, ok (bit_and (r.saved >>> n) (ones count)))

-- What is saved, and the top of one more octet.
join_bits : ℕ → BitReader → BitReader × Result ℕ
join_bits count r =
    let result = bit_and r.saved (ones r.saved_bits) in
    let remainder = count - r.saved_bits in
    let (r', x) = read_byte_internal r in
    elim x [
      | err e ↦ (r', err e)
      | ok b ↦ (
        record r' { saved = b; saved_bits = 8 - remainder },
        ok (bit_or (u64 (result <<< remainder)) (b >>> (8 - remainder))),
      )
    ]

finish_bits : ℕ → BitReader × Option Error → BitReader × Result ℕ
finish_bits count (r, some e) = (r, err e)
finish_bits count (r, none) =
    if leb count r.saved_bits then take_bits count r else join_bits count r

-- A round of the loop adds eight bits, so `count / 8` of them are enough.
pub read_bits : ℕ → Reads ℕ
unfolding take_bits join_bits finish_bits
read_bits count r =
    if ltb 64 count
    then (r, err Error.too_large)
    else finish_bits count (read_loop (count / 8) count r)

pub read_byte : Reads ℕ
read_byte r =
    if r.saved_bits == 0
    then read_byte_internal r
    else (let (r', x) = read_bits 8 r in elim x [ ok b ↦ (r', ok (u8 b)) | err e ↦ (r', err e) ])
