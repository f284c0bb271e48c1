-- ===== src/Io/BitWriter/Slices.antt =====
-- `Write` of a slice, on an octet's boundary and off it.
use minhq.Base.{
  All-append, ℕ, suc, ◌+◌, ◌≡◌, refl, sym, ap, ◌∙◌, inl, inr, List, [], ◌∷◌, ◌++◌, none, arith,
  Bool-cases, ◌==◌, ==_iff, All, length,
}
use minhq.Base.Words.{IsByte}
use minhq.Base.Bits.{bits_of}
use minhq.Io.BitWriter.{Sink, Answer, BitWriter, offer, offer_all, write, write_loop, write_byte}
use minhq.Io.BitWriter.View.{byte_bits, byte_bits-append, view}
use minhq.Io.BitWriter.Wrote.{IsHealthy, Sent, write_byte-Wrote}
use mathlib.Core.List.{append_assoc, append-nil}
use native.Mathlib.Nat.{zero-add}

offer-accepts :
    (s : Sink) (c : ℕ)
    → s.answers ≡ []
    → ((offer s c).1 ≡ Answer.accepts)
      × ((offer s c).0.answers ≡ [])
      × ((offer s c).0.bytes ≡ s.bytes ++ c ∷ [])
unfolding offer
offer-accepts s c e = ground arith

offer_all-accepts :
    (s : Sink) (p : List ℕ)
    → s.answers ≡ []
    → ((offer_all s p).0.answers ≡ [])
      × ((offer_all s p).0.bytes ≡ s.bytes ++ p)
      × ((offer_all s p).1 ≡ length p)
      × ((offer_all s p).2 ≡ none)
unfolding offer_all
offer_all-accepts s [] e = (e, sym (append-nil s.bytes), refl, refl)
offer_all-accepts s (c ∷ p) e =
    let (a, none_left, out) = offer-accepts s c e in
    let (none_left', out', n, ok_rest) = offer_all-accepts (offer s c).0 p none_left in
    rw (a, offer_all)
      (none_left', out' ∙ ap (λ x. x ++ p) out ∙ append_assoc s.bytes (c ∷ []) p, ap suc n, ok_rest)

write_loop-Sent :
    (i : ℕ) (p : List ℕ) (bw : BitWriter)
    → IsHealthy bw
    → All IsByte p
    → Sent (i + length p) (byte_bits p) bw (write_loop i p bw)
unfolding write_loop
write_loop-Sent i [] bw u h = record {
  healthy = u;
  count = omega arith;
  no_error = refl;
  appended = sym (append-nil (view bw));
}
write_loop-Sent i (b ∷ p) bw u h =
    let first = write_byte-Wrote b bw u h.0 in
    let rest = write_loop-Sent (i + 1) p (write_byte b bw).0 first.healthy h.1 in
    rw (first.no_error, write_loop)
      (record {
        healthy = rest.healthy;
        count = rest.count ∙ omega arith;
        no_error = rest.no_error;
        appended =
            rest.appended
            ∙ ap (λ x. x ++ byte_bits p) first.appended
            ∙ append_assoc (view bw) (bits_of 8 b) (byte_bits p);
      })

aligned :
    (bw : BitWriter) (p : List ℕ)
    → bw.saved_bits ≡ 0
    → (out : List ℕ) → out ≡ bw.sink.bytes ++ p
    → byte_bits out ++ bits_of bw.saved_bits bw.saved ≡ view bw ++ byte_bits p
unfolding bits_of
aligned bw p e out f = rw (f, e, byte_bits-append) (simp append-nil)

-- `Write` of a slice of bytes, on a writer whose transport accepts, aligned or not, returns nil
-- and the slice's length and appends every byte.
pub write-Sent :
    (p : List ℕ) (bw : BitWriter)
    → IsHealthy bw
    → All IsByte p
    → Sent (length p) (byte_bits p) bw (write p bw)
unfolding write
write-Sent p bw u h = elim (Bool-cases (bw.saved_bits == 0)) [
  | inr e ↦ rw e (rw (zero-add (length p)) at (write_loop-Sent 0 p bw u h))
  | inl e ↦
      let (a, out, n, no_error) = offer_all-accepts bw.sink p u.accepting in
      rw e (record {
        healthy = record {
          small = u.small;
          accepting = a;
          octets = rw out (All-append IsByte bw.sink.bytes p u.octets h);
        };
        count = n;
        no_error = no_error;
        appended = aligned bw p ((==_iff _ _).0 e) _ out;
      })
]
