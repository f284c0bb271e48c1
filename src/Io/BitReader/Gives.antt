-- ===== src/Io/BitReader/Gives.antt =====
-- Reads whose input is known to start with the bits that they want: the form that the users of a
-- `bitReader` reason with.
use minhq.Base.{
  ℕ, ◌^◌, ◌≤◌, ◌<◌, ◌≡◌, sym, ap, ◌∙◌, inl, inr, List, ◌++◌, Error, Result, ok, arith, length,
  length-append,
}
use minhq.Base.Bits.{
  bits_of, value-bits_of, value_from, length-bits_of, take-append_length, drop-append_length,
}
use minhq.Base.{take, drop}
use minhq.Io.BitReader.{BitReader, Reads, ◌>>=◌, read_bits, read_bit, read_byte}
use minhq.Io.BitReader.View.{view, IsValid}
use minhq.Io.BitReader.Reads.{Took, read_bits-Took, read_bit-Took, read_byte-Took}

-- The read returns `a` and leaves `rest`.
pub record Gives {ℓ} {A : Type ℓ} (stop : Error) (rest : List ℕ) (a : A) (s : BitReader × Result A)
    : Type ℓ where
  pub valid : IsValid s.0
  pub stops : s.0.source.stop ≡ stop
  pub value : s.1 ≡ ok a
  pub left : view s.0 ≡ rest

bits_of-inj :
    (n v w : ℕ) (xs ys : List ℕ)
    → v < 2 ^ n
    → w < 2 ^ n
    → bits_of n v ++ xs ≡ bits_of n w ++ ys
    → (v ≡ w) × (xs ≡ ys)
bits_of-inj n v w xs ys hv hw e = (
  sym (value-bits_of n v hv)
      ∙ ap (value_from 0) (
          sym (take-append_length n (bits_of n v) xs (length-bits_of n v))
          ∙ ap (take n) e
          ∙ take-append_length n (bits_of n w) ys (length-bits_of n w))
      ∙ value-bits_of n w hw,
  sym (drop-append_length n (bits_of n v) xs (length-bits_of n v))
      ∙ ap (drop n) e
      ∙ drop-append_length n (bits_of n w) ys (length-bits_of n w),
)

Took-Gives :
    (count v : ℕ) (r : BitReader) (rest : List ℕ) (s : BitReader × Result ℕ)
    → v < 2 ^ count
    → view r ≡ bits_of count v ++ rest
    → Took count r s
    → Gives r.source.stop rest v s
Took-Gives count v r rest s hv e (u, t, inl (w, eq, hw, parts)) =
    let (same, left) = bits_of-inj count v w rest (view s.0) hv hw (sym e ∙ parts) in
    record { valid = u; stops = t; value = eq ∙ ap ok (sym same); left = sym left }
Took-Gives count v r rest s hv e (u, t, inr (eq, same, short)) =
    absurd
      (omega (arith, ap length e, length-append (bits_of count v) rest, length-bits_of count v))

pub read_bits-Gives :
    (count v : ℕ) (r : BitReader) (rest : List ℕ)
    → IsValid r
    → count ≤ 64
    → v < 2 ^ count
    → view r ≡ bits_of count v ++ rest
    → Gives r.source.stop rest v (read_bits count r)
read_bits-Gives count v r rest u most hv e =
    Took-Gives count v r rest _ hv e (read_bits-Took count r u most)

pub read_bit-Gives :
    (v : ℕ) (r : BitReader) (rest : List ℕ)
    → IsValid r
    → v < 2
    → view r ≡ bits_of 1 v ++ rest
    → Gives r.source.stop rest v (read_bit r)
read_bit-Gives v r rest u hv e = Took-Gives 1 v r rest _ hv e (read_bit-Took r u)

pub read_byte-Gives :
    (v : ℕ) (r : BitReader) (rest : List ℕ)
    → IsValid r
    → v < 256
    → view r ≡ bits_of 8 v ++ rest
    → Gives r.source.stop rest v (read_byte r)
read_byte-Gives v r rest u hv e = Took-Gives 8 v r rest _ hv e (read_byte-Took r u)

-- A read in two parts.
pub >>=-Gives {ℓ κ} :
    {A : Type ℓ} {B : Type κ} {stop : Error} {rest rest' : List ℕ} {a : A} {b : B} (m : Reads A)
    (f : A → Reads B) (r : BitReader)
    → Gives stop rest a (m r)
    → ((r' : BitReader)
        → IsValid r'
        → r'.source.stop ≡ stop
        → view r' ≡ rest
        → Gives stop rest' b (f a r'))
    → Gives stop rest' b ((m >>= f) r)
>>=-Gives m f r g h = rw (g.value, ◌>>=◌) (h (m r).0 g.valid g.stops g.left)
