-- ===== src/Io/BitWriter/Padding.antt =====
-- Padding to a whole octet, on a transport that accepts everything.
use minhq.Base.{
  ℕ, zero, suc, ◌+◌, ◌*◌, ◌-◌, ◌/◌, ◌^◌, ◌<◌, ◌≡◌, refl, sym, ap, inl, inr, List, [], ◌∷◌, ◌++◌,
  Option, none, Error, arith, Bool-cases, ltb, ltb→lt, ltb_false→le, length, length-append,
}
use minhq.Base.Words.{◌>>>◌, pow_pos}
use minhq.Base.Bits.{bits_of, length-bits_of}
use minhq.Io.BitWriter.{BitWriter, write_saved, write_saved_loop, write_bits, pad, pad_rest}
use minhq.Io.BitWriter.View.{byte_bits, view}
use minhq.Io.BitWriter.Wrote.{IsHealthy, Wrote, write_bits-Wrote}
use mathlib.Core.List.{append-nil}

-- A run of ones that fills the last octet.
abbrev pub ones_of : ℕ → List ℕ
ones_of k = bits_of k (2 ^ k - 1)

pub length-byte_bits : (bytes : List ℕ) → length (byte_bits bytes) ≡ 8 * length bytes
length-byte_bits [] = omega arith
length-byte_bits (b ∷ bytes) = omega (
  arith,
  length-append (bits_of 8 b) (byte_bits bytes),
  length-bits_of 8 b,
  length-byte_bits bytes,
)

write_saved-none : (bw : BitWriter) → bw.saved_bits < 8 → write_saved bw ≡ (bw, none)
unfolding write_saved write_saved_loop
write_saved-none bw h = rw no_octet refl
  where
    no_octet : bw.saved_bits / 8 ≡ 0
    no_octet = omega arith

high_ones : (n : ℕ) → n < 8 → 0xff >>> n ≡ 2 ^ (8 - n) - 1
high_ones zero h = refl
high_ones (suc zero) h = refl
high_ones (suc (suc zero)) h = refl
high_ones (suc (suc (suc zero))) h = refl
high_ones (suc (suc (suc (suc zero)))) h = refl
high_ones (suc (suc (suc (suc (suc zero))))) h = refl
high_ones (suc (suc (suc (suc (suc (suc zero)))))) h = refl
high_ones (suc (suc (suc (suc (suc (suc (suc zero))))))) h = refl
high_ones (suc (suc (suc (suc (suc (suc (suc (suc n)))))))) h = absurd (omega arith)

-- Fewer than eight ones went out, and nothing is held.
pub record Padded (bw : BitWriter) (r : BitWriter × Option Error) : Type 0 where
  pub no_error : r.1 ≡ none
  pub empty : r.0.saved_bits ≡ 0
  pub count : ℕ
  pub few : count < 8
  pub appended : view r.0 ≡ view bw ++ ones_of count

length-view : (bw : BitWriter) → length (view bw) ≡ 8 * length bw.sink.bytes + bw.saved_bits
length-view bw = omega (
  arith,
  length-append (byte_bits bw.sink.bytes) (bits_of bw.saved_bits bw.saved),
  length-byte_bits bw.sink.bytes,
  length-bits_of bw.saved_bits bw.saved,
)

-- Bits that complete an octet leave none held.
completed :
    (bw bw' : BitWriter) (k : ℕ)
    → bw.saved_bits + k ≡ 8
    → bw'.saved_bits < 8
    → view bw' ≡ view bw ++ ones_of k
    → bw'.saved_bits ≡ 0
completed bw bw' k whole small e = omega (
  arith,
  length-view bw,
  length-view bw',
  ap length e,
  length-append (view bw) (ones_of k),
  length-bits_of k (2 ^ k - 1),
)

pad_rest-Padded :
    (bw : BitWriter) → IsHealthy bw → 0 < bw.saved_bits → Padded bw (pad_rest 0xff (bw, none))
unfolding pad_rest bits_of
pad_rest-Padded bw u held =
    rw (w.no_error, pad_rest)
      (record {
        no_error = refl;
        empty = refl;
        count = k;
        few = omega arith;
        appended = rw none_left at w.appended;
      })
  where
    k : ℕ
    k = 8 - bw.saved_bits

    fits : 2 ^ k - 1 < 2 ^ k
    fits = omega (arith, pow_pos k)

    w : Wrote (ones_of k) bw (write_bits (0xff >>> bw.saved_bits) k bw)
    w =
        rw (high_ones bw.saved_bits u.small)
          (write_bits-Wrote (2 ^ k - 1) k bw u (omega arith) fits)

    none_left : (write_bits (0xff >>> bw.saved_bits) k bw).0.saved_bits ≡ 0
    none_left =
        completed bw (write_bits (0xff >>> bw.saved_bits) k bw).0 k (omega (arith, u.small))
          w.healthy.small w.appended

-- `Pad(0xff)`, on a writer whose transport accepts, reports no error, appends fewer than eight
-- ones and holds nothing.
pub pad-Padded : (bw : BitWriter) → IsHealthy bw → Padded bw (pad 0xff bw)
unfolding pad bits_of
pad-Padded bw u = elim (Bool-cases (ltb 0 bw.saved_bits)) [
  | inr none_held ↦
      let empty : bw.saved_bits ≡ 0 = omega (arith, ltb_false→le _ _ none_held) in
      rw (none_held, pad)
        (record {
          no_error = refl;
          empty = empty;
          count = 0;
          few = omega arith;
          appended = sym (append-nil (view bw));
        })
  | inl held ↦ rw (held, pad, write_saved-none bw u.small) (pad_rest-Padded bw u (ltb→lt _ _ held))
]
