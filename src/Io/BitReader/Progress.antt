-- ===== src/Io/BitReader/Progress.antt =====
-- No read gives anything back: the input never grows, on any path, errors included.
use minhq.Base.{
  ℕ, suc, ◌≤◌, ◌≡◌, ap, inl, inr, Result, ok, err, arith, length, length-append, if◌then◌else◌,
  Bool, true, false,
}
use minhq.Base.Bits.{bits_of, length-bits_of}
use minhq.Io.BitReader.{BitReader, Reads, ◌>>=◌, read_bits, read_bit, read_byte}
use minhq.Io.BitReader.View.{view, IsValid}
use minhq.Io.BitReader.Reads.{Took, read_bits-Took, read_bit-Took, read_byte-Took}

-- The reader `r'` stands at `r` or behind it.
pub record Behind (r r' : BitReader) : Type 0 where
  pub valid : IsValid r'
  pub shorter : length (view r') ≤ length (view r)

abbrev pub Advances {ℓ} : {A : Type ℓ} → Reads A → Type 0
Advances f = (r : BitReader) → IsValid r → Behind r (f r).0

pub Behind-trans : (r r' r'' : BitReader) → Behind r r' → Behind r' r'' → Behind r r''
Behind-trans r r' r'' b b' = record {
  valid = b'.valid;
  shorter = omega (arith, b.shorter, b'.shorter);
}

pub Behind-refl : (r : BitReader) → IsValid r → Behind r r
Behind-refl r u = record { valid = u; shorter = omega arith }

Took-Behind : (count : ℕ) (r : BitReader) (s : BitReader × Result ℕ) → Took count r s → Behind r s.0
Took-Behind count r s (u, t, inl (w, eq, small, parts)) = record {
  valid = u;
  shorter = omega (arith, ap length parts, length-append (bits_of count w) (view s.0));
}
Took-Behind count r s (u, t, inr (eq, same, short)) = record {
  valid = u;
  shorter = omega (arith, ap length same);
}

pub read_bits-Advances : (count : ℕ) → count ≤ 64 → Advances (read_bits count)
read_bits-Advances count most r u = Took-Behind count r _ (read_bits-Took count r u most)

pub read_bit-Advances : Advances read_bit
read_bit-Advances r u = Took-Behind 1 r _ (read_bit-Took r u)

pub read_byte-Advances : Advances read_byte
read_byte-Advances r u = Took-Behind 8 r _ (read_byte-Took r u)

-- A bit that was read is gone.
pub read_bit-shorter :
    (r : BitReader) (b : ℕ)
    → IsValid r
    → (read_bit r).1 ≡ ok b
    → suc (length (view (read_bit r).0)) ≡ length (view r)
read_bit-shorter r b u e = elim (read_bit-Took r u).2 [
  | inl (w, eq, small, parts) ↦ omega (
    arith,
    ap length parts,
    length-append (bits_of 1 w) (view (read_bit r).0),
    length-bits_of 1 w,
  )
  | inr (eq, same, short) ↦ cc
]

Behind-then {ℓ κ} :
    {A : Type ℓ} {B : Type κ} (r r' : BitReader) (x : Result A) (f : A → Reads B)
    → Behind r r'
    → ((a : A) → Advances (f a))
    → Behind r (elim x as (λ y. BitReader × Result B) [ ok a ↦ f a r' | err e ↦ (r', err e) ]).0
Behind-then r r' (ok a) f b h = Behind-trans r r' (f a r').0 b (h a r' b.valid)
Behind-then r r' (err e) f b h = b

pub >>=-Advances {ℓ κ} :
    {A : Type ℓ} {B : Type κ} (m : Reads A) (f : A → Reads B)
    → Advances m
    → ((a : A) → Advances (f a))
    → Advances (m >>= f)
>>=-Advances m f h k r u = Behind-then r (m r).0 (m r).1 f (h r u) k

pub if-Advances {ℓ} :
    {A : Type ℓ} (b : Bool) (m k : Reads A)
    → Advances m
    → Advances k
    → Advances (if b then m else k)
if-Advances true m k h h' = h
if-Advances false m k h h' = h'
